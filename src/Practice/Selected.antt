-- ===== src/Practice/Selected.antt =====
-- What a selection holds (backend/internal/careergoals/adaptive/selector.go).
use study_mate.Prelude.{
  ℕ, suc, ◌-◌, ◌≤◌, ◌≡◌, refl, ◌∙◌, String, Bool, true, false, ◌||◌, Option, none, some, List, [],
  ◌∷◌, ◌++◌, ◌==◌, str_eq, any, length, sort_by, if◌then◌else◌, arith,
}
use study_mate.Exec.{Result, ok, err, pure}
use study_mate.Exec.Reading.{
  Query, IfOk, Query-pure, Query-raise, Query-lift, Query-call, Query-attempt, Query-bind,
}
use study_mate.Practice.Model.{
  index_out_of_range, Question, Store, Error, Practice, SelectionConfig, Env,
}
use study_mate.Practice.Queries.{
  is_in, parse_ids, drawn, is_topic, is_other, weak_topics, user_or_error, select_by_topic,
  select_other, resolve_subjects, no_subjects, goal_subjects_of, dropped,
}
use study_mate.Practice.Selector.{
  allocate_weak, per_topic_allocation, has_question, avoided, select_topics, or_total, arranged,
  daily_set,
}
use study_mate.Practice.Sets.{
  NoDup, any_left, any_right, any-append, length-take, append-NoDup, drawn-NoDup, any_not-drawn,
  arranged-NoDup, any_not-arranged,
}

-- what is selected from the rows of the store: no repetition, and none that is to be avoided
abbrev pub Apart : (ℕ → Bool) → List Question → Type 0
Apart bad qs = NoDup qs × (any (λ q. bad q.id) qs ≡ false)

drawn-Apart :
    (draw : ℕ → ℕ) (n : ℕ) (t : Question → Bool) (bad : ℕ → Bool) (s : Store)
    → NoDup s.questions
    → ((q : Question) → t q ≡ true → bad q.id ≡ false)
    → Apart bad (drawn draw n t s)
drawn-Apart draw n t bad s h k = (
  drawn-NoDup (λ q. draw q.id) n t s.questions h,
  any_not-drawn (λ q. draw q.id) n (λ q. bad q.id) t s.questions k,
)

topic_test :
    (topic : String) (bad : ℕ → Bool) (q : Question)
    → is_topic topic bad q ≡ true
    → bad q.id ≡ false
topic_test topic bad q h = ground (arith, h)

other_test :
    (subjects : List String) (bad : ℕ → Bool) (q : Question)
    → is_other subjects bad q ≡ true
    → bad q.id ≡ false
other_test subjects bad q h = ground (arith, h)

module _ {A : Type 0} {s : Store} {Q : A → Type 0} {yes no : Practice A} where
  Query-if : (b : Bool) → Query s Q yes → Query s Q no → Query s Q (if b then yes else no)
  Query-if true y n = y
  Query-if false y n = n

pub anything : {A : Type 0} (r : Result Error A) → IfOk (λ _. Unit) r
anything (ok a) = tt
anything (err e) = tt

module _ (s : Store) (h : NoDup s.questions) where
  select_by_topic-Apart :
      (draw : ℕ → ℕ) (topic : String) (bad : ℕ → Bool) (n : ℕ)
      → Query s (Apart bad) (select_by_topic draw topic bad n)
  unfolding select_by_topic NoDup
  select_by_topic-Apart draw topic bad n =
      Query-if (n == 0 || str_eq topic "") (Query-pure [] (tt, refl))
        (Query-call _ _ (drawn-Apart draw n (is_topic topic bad) bad s h (topic_test topic bad)))

  select_other-Apart :
      (draw : ℕ → ℕ) (subjects : List String) (bad : ℕ → Bool) (n : ℕ)
      → Query s (Apart bad) (select_other draw subjects bad n)
  unfolding select_other NoDup
  select_other-Apart draw subjects bad n = Query-if (n == 0) (Query-pure [] (tt, refl)) (
      Query-call _ _ (drawn-Apart draw n (is_other subjects bad) bad s h (other_test subjects bad)))

  -- what is added to a selection
  added-Apart :
      (exclude : List ℕ) (selected qs : List Question)
      → Apart (is_in exclude) selected
      → Apart (avoided exclude selected) qs
      → Apart (is_in exclude) (selected ++ qs)
  added-Apart exclude selected qs a b = (
    append-NoDup selected qs a.0 b.0
        (any_right (λ q. is_in exclude q.id) (λ q. has_question selected q.id) qs b.1),
    any-append (λ q. is_in exclude q.id) selected qs
        ∙ ground (
          arith,
          a.1,
          any_left (λ q. is_in exclude q.id) (λ q. has_question selected q.id) qs b.1,
        ),
  )

  select_topics-Apart :
      (env : Env) (exclude : List ℕ) (i : ℕ) (topics : List String) (shares : List ℕ)
      (selected : List Question)
      → Apart (is_in exclude) selected
      → Query s (Apart (is_in exclude)) (select_topics env exclude i topics shares selected)
  unfolding select_topics
  select_topics-Apart env exclude i [] shares selected a = Query-pure selected a
  select_topics-Apart env exclude i (t ∷ ts) [] selected a = Query-raise index_out_of_range
  select_topics-Apart env exclude i (t ∷ ts) (n ∷ ns) selected a =
      Query-bind (Apart (avoided exclude selected)) _ _
        (select_by_topic-Apart (env.topic_draw i) t (avoided exclude selected) n)
        λ qs b.
          select_topics-Apart env exclude (suc i) ts ns (selected ++ qs)
            (added-Apart exclude selected qs a b)

  goal_subjects_of-Query : (goal : Option ℕ) → Query s (λ _. Unit) (goal_subjects_of goal)
  unfolding goal_subjects_of
  goal_subjects_of-Query none = Query-pure [] tt
  goal_subjects_of-Query (some id) =
      Query-bind (λ (r : Result Error (List String)). IfOk (λ _. Unit) r) _
        (λ found. pure (dropped found)) (Query-attempt _ (Query-call _ _ (tt {0})))
        λ r _. Query-pure (dropped r) tt

  resolve_subjects-Query : (cfg : SelectionConfig) → Query s (λ _. Unit) (resolve_subjects cfg)
  unfolding resolve_subjects
  resolve_subjects-Query cfg =
      Query-if (no_subjects cfg.subjects) (goal_subjects_of-Query cfg.goal_id)
        (Query-pure cfg.subjects tt)

  weak_topics-Query : (user : Option ℕ) → Query s (λ _. Unit) (weak_topics user)
  unfolding weak_topics
  weak_topics-Query user =
      Query-bind (λ _. Unit) _ _ (Query-lift (user_or_error user) (anything (user_or_error user)))
        λ uid _. Query-call _ _ tt

  -- a selection in another order, cut
  pub arranged-Served :
      (draw : ℕ → ℕ) (total : ℕ) (bad : ℕ → Bool) (qs : List Question)
      → Apart bad qs
      → (length (arranged draw total qs) ≤ total) × Apart bad (arranged draw total qs)
  unfolding arranged
  arranged-Served draw total bad qs a = (
    length-take total (sort_by (λ q. draw q.id) qs),
    (
      arranged-NoDup (λ q. draw q.id) total qs a.0,
      any_not-arranged (λ q. draw q.id) total (λ q. bad q.id) qs a.1,
    ),
  )

  pub daily_set-Served :
      (env : Env) (cfg : SelectionConfig)
      → Query s
          (λ qs.
            (length qs ≤ or_total cfg.total_questions 20)
            × Apart (is_in (parse_ids cfg.exclude_ids)) qs)
          (daily_set env cfg)
  unfolding daily_set NoDup
  daily_set-Served env cfg =
      let total = or_total cfg.total_questions 20 in
      let exclude = parse_ids cfg.exclude_ids in
      Query-bind (λ _. Unit) _ _ (resolve_subjects-Query cfg)
        λ subjects _.
          Query-bind (λ _. Unit) _ _ (weak_topics-Query cfg.user_id)
            λ topics _.
              Query-bind (Apart (is_in exclude)) _ _
                (select_topics-Apart env exclude 0 topics
                  (per_topic_allocation (allocate_weak env total (or_total cfg.weak_topic_ratio 60))
                    (length topics))
                  [] (tt, refl))
                λ weak a.
                  Query-bind (Apart (avoided exclude weak)) _ _
                    (select_other-Apart env.other_draw subjects (avoided exclude weak)
                      (total - length weak))
                    λ others b. Query-pure (arranged env.daily_draw total (weak ++ others)) (
                      arranged-Served env.daily_draw total (is_in exclude) (weak ++ others)
                        (added-Apart exclude weak others a b))
