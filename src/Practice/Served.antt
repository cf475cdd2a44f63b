-- ===== src/Practice/Served.antt =====
-- The sets that SelectForDaily and SelectForWeekly return (backend/internal/careergoals/adaptive/selector.go).
use study_mate.Prelude.{
  ℕ, zero, suc, ◌-◌, ◌≤◌, ◌≡◌, refl, sym, subst, Bool, true, false, Bool-cases, inl, inr, List, [],
  ◌∷◌, ◌++◌, take, length, sort_by, arith, Option,
}
use study_mate.Exec.{World, Result, ok, err, call, pure, and_then, ◌>>=◌}
use study_mate.Exec.Reading.{Query, IfOk, Query-pure, Query-lift, Query-call, Query-bind}
use study_mate.Practice.Model.{Question, Store, Error, Practice, SelectionConfig, Env}
use study_mate.Practice.Queries.{
  is_in, parse_ids, log_selection, is_listed, load_by_ids, wrong_answer_ids, user_or_error,
}
use study_mate.Practice.Selector.{
  has_question, or_total, arranged, daily_set, select_for_daily, ids_of, add_new, filled,
  select_for_weekly, weekly_review_cap,
}
use study_mate.Practice.Sets.{
  NoDup, append-NoDup, select-NoDup, sort_by-NoDup, arranged-NoDup, length-take,
}
use study_mate.Practice.Selected.{Apart, anything, daily_set-Served}

-- a set of no more questions than asked for, none of them twice and none of them excluded
abbrev pub Served : SelectionConfig → List Question → Type 0
Served cfg qs =
    (length qs ≤ or_total cfg.total_questions 20) × Apart (is_in (parse_ids cfg.exclude_ids)) qs

module _ {A B : Type 0} (P : A → Type 0) (R : B → Type 0) where
  and_then-IfOk :
      (f : A → Practice B) (r : Result Error A) (w : World Store)
      → IfOk P r
      → ((a : A) → P a → (u : World Store) → IfOk R (f a u).0)
      → IfOk R (and_then f (r, w)).0
  and_then-IfOk f (ok a) w h k = k a h w
  and_then-IfOk f (err e) w h k = tt

module _ {A B : Type 0} (s : Store) (P : A → Type 0) (R : B → Type 0) where
  read_result :
      (f : A → Practice B) (r : Result Error A) (w : World Store)
      → (w.store ≡ s) × IfOk P r
      → ((a : A) → P a → (u : World Store) → u.store ≡ s → IfOk R (f a u).0)
      → IfOk R (and_then f (r, w)).0
  read_result f (ok a) w h k = k a h.1 w h.0
  read_result f (err e) w h k = tt

-- the log changes no result
module _ (R : List Question → Type 0) where
  logged :
      (qs : List Question) (s : Store) (fs : List Bool)
      → R qs
      → IfOk R ((log_selection >>= λ _. pure qs) (record { store = s; faults = fs })).0
  unfolding log_selection call
  logged qs s [] h = h
  logged qs s (true ∷ fs) h = h
  logged qs s (false ∷ fs) h = h

-- Whatever calls fail, the set that SelectForDaily returns holds no more questions than asked for (or
-- twenty), none of them twice and none of the excluded ones, if the ids of the rows are distinct.
pub select_for_daily-Served :
    (env : Env) (cfg : SelectionConfig) (w : World Store)
    → NoDup w.store.questions
    → IfOk (Served cfg) (select_for_daily env cfg w).0
unfolding select_for_daily
select_for_daily-Served env cfg w h =
    and_then-IfOk (Served cfg) (Served cfg) (λ qs. log_selection >>= λ _. pure qs)
      (daily_set env cfg w).0 (daily_set env cfg w).1
      ((daily_set-Served w.store h env cfg).at w refl).1
      λ qs served u. logged (Served cfg) qs u.store u.faults served

-- what is there already is left out
add_new-NoDup : (selected qs : List Question) → NoDup selected → NoDup (add_new selected qs)
unfolding add_new NoDup
add_new-NoDup selected [] h = h
add_new-NoDup selected (q ∷ qs) h = elim (Bool-cases (has_question selected q.id)) [
  | inl there ↦ rw there (add_new-NoDup selected qs h)
  | inr new ↦ rw new (
      add_new-NoDup (selected ++ (q ∷ [])) qs
        (append-NoDup selected (q ∷ []) h (refl, tt) (ground (arith, new))))
]

filled-NoDup :
    (env : Env) (cfg : SelectionConfig) (selected : List Question) (n : ℕ) (w : World Store)
    → NoDup w.store.questions
    → NoDup selected
    → IfOk NoDup (filled env cfg selected n w).0
unfolding filled
filled-NoDup env cfg selected zero w h k = k
filled-NoDup env cfg selected (suc n) w h k =
    let asked = record cfg {
      total_questions = suc n;
      exclude_ids = cfg.exclude_ids ++ ids_of selected;
    } in
    and_then-IfOk (Served asked) NoDup (λ fill. pure (add_new selected fill))
      (select_for_daily env asked w).0 (select_for_daily env asked w).1
      (select_for_daily-Served env asked w h) λ fill _ u. add_new-NoDup selected fill k

load_by_ids-NoDup :
    (s : Store) (draw : ℕ → ℕ) (ids : List ℕ)
    → NoDup s.questions
    → Query s NoDup (load_by_ids draw ids)
unfolding load_by_ids NoDup
load_by_ids-NoDup s draw [] h = Query-pure [] tt
load_by_ids-NoDup s draw (id ∷ ids) h =
    Query-call _ _
      (sort_by-NoDup (λ q. draw q.id) _ (select-NoDup (is_listed (id ∷ ids)) s.questions h))

wrong_answer_ids-Query :
    (s : Store) (now : ℕ) (user : Option ℕ) (days : ℕ)
    → Query s (λ _. Unit) (wrong_answer_ids now user days)
unfolding wrong_answer_ids
wrong_answer_ids-Query s now user days =
    Query-bind (λ _. Unit) _ _ (Query-lift (user_or_error user) (anything (user_or_error user)))
      λ uid _. Query-call _ _ tt

weekly_arranged :
    (draw : ℕ → ℕ) (total : ℕ) (qs : List Question)
    → NoDup qs
    → (length (arranged draw total qs) ≤ total) × NoDup (arranged draw total qs)
unfolding arranged
weekly_arranged draw total qs h =
    (length-take total (sort_by (λ q. draw q.id) qs), arranged-NoDup (λ q. draw q.id) total qs h)

-- Whatever calls fail, the set that SelectForWeekly returns holds no more questions than asked for (or
-- forty) and none of them twice, if the ids of the rows are distinct.
pub select_for_weekly-NoDup :
    (env : Env) (cfg : SelectionConfig) (w : World Store)
    → NoDup w.store.questions
    → IfOk
        (λ qs. (length qs ≤ or_total cfg.total_questions 40) × NoDup qs)
        (select_for_weekly env cfg w).0
unfolding select_for_weekly
select_for_weekly-NoDup env cfg w h =
    let s = w.store in
    let total = or_total cfg.total_questions 40 in
    let wrong_ids = wrong_answer_ids env.now cfg.user_id 7 in
    let Set = λ (qs : List Question). (length qs ≤ total) × NoDup qs in
    read_result s (λ _. Unit) Set _ (wrong_ids w).0 (wrong_ids w).1
      ((wrong_answer_ids-Query s env.now cfg.user_id 7).at w refl)
      λ wrong _ u at_u.
        let reviews_of = load_by_ids env.load_draw (take weekly_review_cap wrong) in
        read_result s NoDup Set _ (reviews_of u).0 (reviews_of u).1
          ((load_by_ids-NoDup s env.load_draw (take weekly_review_cap wrong) h).at u at_u)
          λ reviews one v at_v.
            let fill = filled env cfg reviews (total - length reviews) in
            and_then-IfOk NoDup Set (λ qs. pure (arranged env.weekly_draw total qs)) (fill v).0
              (fill v).1
              (filled-NoDup env cfg reviews (total - length reviews) v
                (subst (λ t. NoDup t.questions) (sym at_v) h) one)
              λ qs ok_qs x. weekly_arranged env.weekly_draw total qs ok_qs
