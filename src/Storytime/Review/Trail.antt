-- ===== src/Storytime/Review/Trail.antt =====
-- What it means that a call extends the audit, and the parts of calls that do.
use mathlib.Core.Path.{subst}
use mathlib.Core.List.{append_assoc}
use sto_info_backend.Base.{
  ◌≡◌, refl, sym, ap, ◌∙◌, inl, inr, Bool, true, false, Option, none, some, List, [], ◌∷◌, ◌++◌,
  Bool-cases, Result, ok, err, Error, Action, raise_if, ◌>>=◌, or_raise, bind-ok, bind-err,
}
use sto_info_backend.Storytime.Review.Data.{
  ActionEntry, Appeal, Report, Notice, Desk, insert_appeal, save_appeal, insert_story_report,
  save_story_report, refuses_appeal, refuses_story_report,
}
use sto_info_backend.Storytime.Review.Audit.{IsAudited}

-- The second desk keeps what the first one's audit holds, and accounts for its removals if the first does.
pub record Extends (d d' : Desk) : Type 0 where
  pub grows : (news : List ActionEntry) × (d'.actions ≡ news ++ d.actions)
  pub audits : IsAudited d → IsAudited d'

pub Extends-refl : (d : Desk) → Extends d d
Extends-refl d = record { grows = ([], refl); audits = λ v. v }

pub Extends-trans : (a b c : Desk) → Extends a b → Extends b c → Extends a c
Extends-trans a b c h k = record {
  grows = (
    k.grows.0 ++ h.grows.0,
    k.grows.1
        ∙ ap (λ x. k.grows.0 ++ x) h.grows.1
        ∙ sym (append_assoc k.grows.0 h.grows.0 a.actions),
  );
  audits = λ v. k.audits (h.audits v);
}

Extends-run :
    {A B : Type 0} (m : Action Desk A) (f : A → Action Desk B) (d : Desk) (r : Result A × Desk)
    → m d ≡ r
    → Extends d (m d).1
    → ((x : A) (d' : Desk) → m d ≡ (ok x, d') → Extends d' (f x d').1)
    → Extends d ((m >>= f) d).1
Extends-run m f d (ok x, d') e h k =
    subst (λ r. Extends d r.1) (sym (bind-ok m f d e))
      (Extends-trans d d' (f x d').1 (subst (λ r. Extends d r.1) e h) (k x d' e))
Extends-run m f d (err x, d') e h k =
    subst (λ r. Extends d r.1) (sym (bind-err m f d e)) (subst (λ r. Extends d r.1) e h)

-- A chain extends the desk where each part does.
pub Extends-bind :
    {A B : Type 0} (m : Action Desk A) (f : A → Action Desk B) (d : Desk)
    → Extends d (m d).1
    → ((x : A) (d' : Desk) → m d ≡ (ok x, d') → Extends d' (f x d').1)
    → Extends d ((m >>= f) d).1
Extends-bind m f d h k = Extends-run m f d (m d) refl h k

-- What a call leaves alone.
pub Extends-same : (d d' : Desk) → d' ≡ d → Extends d d'
Extends-same d d' e = subst (λ x. Extends d x) (sym e) (Extends-refl d)

pub raise_if-same : (b : Bool) (e : Error) (d : Desk) → (raise_if b e d).1 ≡ d
raise_if-same true e d = refl
raise_if-same false e d = refl

pub or_raise-same : {A : Type 0} (o : Option A) (e : Error) (d : Desk) → (or_raise o e d).1 ≡ d
or_raise-same none e d = refl
or_raise-same (some x) e d = refl

pub Extends-raise_if :
    {A : Type 0} (b : Bool) (e : Error) (f : Unit {0} → Action Desk A) (d : Desk)
    → Extends d (f tt d).1
    → Extends d ((raise_if b e >>= f) d).1
Extends-raise_if true e f d h = Extends-refl d
Extends-raise_if false e f d h = h

-- The tables beside the content and the audit.
pub record IsBeside (d d' : Desk) : Type 0 where
  pub stories : d'.stories ≡ d.stories
  pub arcs : d'.arcs ≡ d.arcs
  pub chapters : d'.chapters ≡ d.chapters
  pub characters : d'.characters ≡ d.characters
  pub actions : d'.actions ≡ d.actions

IsAudited-beside : (d d' : Desk) → IsBeside d d' → IsAudited d → IsAudited d'
IsAudited-beside d d' s v = record {
  of_stories = rw (s.actions, s.stories) v.of_stories;
  of_arcs = rw (s.actions, s.arcs) v.of_arcs;
  of_chapters = rw (s.actions, s.chapters) v.of_chapters;
  of_characters = rw (s.actions, s.characters) v.of_characters;
}

pub Extends-beside : (d d' : Desk) → IsBeside d d' → Extends d d'
Extends-beside d d' s = record { grows = ([], s.actions); audits = IsAudited-beside d d' s }

pub IsBeside-refl :
    (d : Desk) (appeals : List Appeal) (rs : List Report) (ns : List Notice)
    → IsBeside d (record d { appeals = appeals; reports = rs; notices = ns })
IsBeside-refl d appeals rs ns = record {
  stories = refl;
  arcs = refl;
  chapters = refl;
  characters = refl;
  actions = refl;
}

pub insert_appeal-Extends : (a : Appeal) (d : Desk) → Extends d (insert_appeal a d).1
unfolding insert_appeal
insert_appeal-Extends a d = elim (Bool-cases (refuses_appeal a d.appeals)) [
  | inl taken ↦ rw taken (Extends-refl d)
  | inr free ↦ rw free (Extends-beside d _ (IsBeside-refl d (a ∷ d.appeals) d.reports d.notices))
]

pub save_appeal-Extends : (a : Appeal) (d : Desk) → Extends d (save_appeal a d).1
unfolding save_appeal
save_appeal-Extends a d = elim (Bool-cases (refuses_appeal a d.appeals)) [
  | inl taken ↦ rw taken (Extends-refl d)
  | inr free ↦ rw free (Extends-beside d _ (IsBeside-refl d _ d.reports d.notices))
]

pub insert_report-Extends : (r : Report) (d : Desk) → Extends d (insert_story_report r d).1
unfolding insert_story_report
insert_report-Extends r d = elim (Bool-cases (refuses_story_report r d.reports)) [
  | inl taken ↦ rw taken (Extends-refl d)
  | inr free ↦ rw free (Extends-beside d _ (IsBeside-refl d d.appeals (r ∷ d.reports) d.notices))
]

pub save_report-Extends : (r : Report) (d : Desk) → Extends d (save_story_report r d).1
unfolding save_story_report
save_report-Extends r d = elim (Bool-cases (refuses_story_report r d.reports)) [
  | inl taken ↦ rw taken (Extends-refl d)
  | inr free ↦ rw free (Extends-beside d _ (IsBeside-refl d d.appeals _ d.notices))
]
