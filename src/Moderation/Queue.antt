-- ===== src/Moderation/Queue.antt =====
-- The rule of one waiting report for each pair of members, and the calls that it stops.
use sto_info_backend.Base.{
  ℕ, ◌≡◌, ◌≢◌, ◌≤◌, refl, inl, inr, Bool, false, not, ◌&&◌, Option, none, some, List, [], ◌∷◌,
  arith, ◌==◌, Bool-cases, Option-cases, Result, ok, err, query_failed,
}
use sto_info_backend.Store.{has_id, find?, any, count_where, HasDistinctIds}
use sto_info_backend.Store.Laws.{find?-eq_none-count_where, count_where-cons}
use sto_info_backend.Community.Data.{Profile, Env as CommunityEnv}
use sto_info_backend.Community.Members.{find_active}
use sto_info_backend.Moderation.Data.{
  UserReport, Site, report_row_id, is_awaiting, refuses_report, insert_report,
}
use sto_info_backend.Moderation.Reports.{
  CreateUserReport, new_report, file_report, report_target, report_member,
}

-- The primary key and UQ_user_report_open_pair.
pub record ReportsValid (rs : List UserReport) : Type 0 where
  pub ids : HasDistinctIds report_row_id rs
  pub one : (u v : ℕ) → count_where (is_awaiting u v) rs ≤ 1

-- A call that leaves the reports valid and is not stopped by a unique index or a check.
abbrev pub IsSound : {A : Type 0} → Result A × Site → Type 0
IsSound r = ReportsValid r.1.reports × (r.0 ≢ err query_failed)

cons-ReportsValid :
    (r : UserReport) (rs : List UserReport)
    → ReportsValid rs
    → has_id report_row_id r.id rs ≡ false
    → find? (is_awaiting r.reporter_id r.reported_id) rs ≡ none
    → ReportsValid (r ∷ rs)
unfolding report_row_id is_awaiting
cons-ReportsValid r rs v new free = record {
  ids = (new, v.ids);
  one = λ u w.
      let counted = count_where-cons (is_awaiting u w) r rs in
      let zero = find?-eq_none-count_where (is_awaiting r.reporter_id r.reported_id) rs free in
      ground (arith, counted, v.one u w, zero);
}

others_of_none :
    (u v n : ℕ) (rs : List UserReport)
    → find? (is_awaiting u v) rs ≡ none
    → any (λ s. not (s.id == n) && is_awaiting u v s) rs ≡ false
unfolding find? any
others_of_none u v n [] h = refl
others_of_none u v n (r ∷ rs) h = ground (arith, others_of_none u v n rs)

insert_report-ok :
    (r : UserReport) (site : Site)
    → refuses_report r site.reports ≡ false
    → insert_report r site ≡ (ok tt, record site { reports = r ∷ site.reports })
unfolding insert_report
insert_report-ok r site h = rw h refl

new_report-accepted :
    (env : CommunityEnv) (reporter : ℕ) (dto : CreateUserReport) (w : ℕ) (rs : List UserReport)
    → reporter ≢ w
    → find? (is_awaiting reporter w) rs ≡ none
    → refuses_report (new_report env reporter w dto) rs ≡ false
unfolding refuses_report new_report
new_report-accepted env reporter dto w rs apart h =
    let others = others_of_none reporter w env.new_id rs h in ground (arith, others, apart)

file_report-IsSound :
    (env : CommunityEnv) (reporter : ℕ) (dto : CreateUserReport) (w : ℕ) (site : Site)
    (o : Option UserReport)
    → ReportsValid site.reports
    → has_id report_row_id env.new_id site.reports ≡ false
    → reporter ≢ w
    → find? (is_awaiting reporter w) site.reports ≡ o
    → IsSound (file_report env reporter dto w o site)
unfolding file_report new_report
file_report-IsSound env reporter dto w site (some r) v new apart h = (v, λ e. ground (arith, e))
file_report-IsSound env reporter dto w site none v new apart h =
    rw
      (insert_report-ok (new_report env reporter w dto) site
        (new_report-accepted env reporter dto w site.reports apart h))
      (
        cons-ReportsValid (new_report env reporter w dto) site.reports v new h,
        λ e. ground (arith, e),
      )

report_target-IsSound :
    (env : CommunityEnv) (reporter : ℕ) (dto : CreateUserReport) (target : Profile) (site : Site)
    → ReportsValid site.reports
    → has_id report_row_id env.new_id site.reports ≡ false
    → IsSound (report_target env reporter dto target site)
unfolding report_target
report_target-IsSound env reporter dto target site v new =
    elim (Bool-cases (target.user_id == reporter)) [
      | inl own ↦ rw own (v, λ e. ground (arith, e))
      | inr other ↦ rw other (
          file_report-IsSound env reporter dto target.user_id site
            (find? (is_awaiting reporter target.user_id) site.reports) v new (ground (arith, other))
            refl)
    ]

-- `reportMember`, whoever calls it and whomever it names, keeps the rule that a member has at most one
-- report about another waiting, and is never stopped by the index that states that rule, as long as the
-- database draws a new id.
pub report_member-IsSound :
    (env : CommunityEnv) (reporter : ℕ) (dto : CreateUserReport) (site : Site)
    → ReportsValid site.reports
    → has_id report_row_id env.new_id site.reports ≡ false
    → IsSound (report_member env reporter dto site)
unfolding report_member
report_member-IsSound env reporter dto site v new =
    elim (Option-cases (find_active env dto.username site.community)) [
      | inl h ↦ rw h (v, λ e. ground (arith, e))
      | inr (target, h) ↦ rw h (report_target-IsSound env reporter dto target site v new)
    ]

-- Another report of the same pair that waits for a decision.
abbrev pub has_rival : UserReport → List UserReport → Bool
has_rival r rs = any (λ s. not (s.id == r.id) && is_awaiting r.reporter_id r.reported_id s) rs
