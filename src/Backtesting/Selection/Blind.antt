-- ===== src/Backtesting/Selection/Blind.antt =====
-- The selection does not see the test partition.
use mytradingsystem.Base.{
  List, [], arith, ◌<ℤ◌, ◌∷◌, ◌≡◌, ◌≤ℤ◌, Bool-cases, Result, ap, ok, ◌++◌, All, is_empty, ltb_ℤ,
  subst, cons_injective, false, inl, inr, ok_injective, ap₂, refl, sym, raise_if-ok, ◌||◌, ◌⊎◌,
  >>=-ok,
}
use mytradingsystem.Backtesting.Selection.{
  best, Callbacks, CandidateScore, OutOfSample, select_out_of_sample, selected, SelectionError,
  better, empty_partitions, no_candidates, scored,
}

module _ {C : Type 0} where
  abbrev pub Below : CandidateScore C → CandidateScore C → Type 0
  Below s x = x.validation_score <ℤ s.validation_score

  abbrev pub NotAbove : CandidateScore C → CandidateScore C → Type 0
  NotAbove s x = x.validation_score ≤ℤ s.validation_score

  -- The first of the greatest scores.
  pub record IsFirstGreatest (s : CandidateScore C) (ss : List (CandidateScore C)) : Type 0 where
    pub before : List (CandidateScore C)
    pub after : List (CandidateScore C)
    pub place : ss ≡ before ++ s ∷ after
    pub earlier : All (Below s) before
    pub later : All (NotAbove s) after

  better-cases :
      (b x : CandidateScore C) → ((better b x ≡ x) × Below x b) ⊎ ((better b x ≡ b) × NotAbove b x)
  better-cases b x = elim (Bool-cases (ltb_ℤ b.validation_score x.validation_score)) [
    | inl above ↦ inl (rw above refl, ground (arith, above))
    | inr below ↦ inr (rw below refl, ground (arith, below))
  ]

  best-NotAbove : (b : CandidateScore C) (ss : List (CandidateScore C)) → NotAbove (best b ss) b
  best-NotAbove b [] = omega arith
  best-NotAbove b (x ∷ xs) = elim (better-cases b x) [
    | inl (is, above) ↦
        subst (λ c. NotAbove (best c xs) b) (sym is) (omega (arith, best-NotAbove x xs, above))
    | inr (is, below) ↦ subst (λ c. NotAbove (best c xs) b) (sym is) (best-NotAbove b xs)
  ]

  beaten :
      (b x s : CandidateScore C) (xs : List (CandidateScore C))
      → Below s b
      → IsFirstGreatest s (x ∷ xs)
      → IsFirstGreatest s (b ∷ x ∷ xs)
  beaten b x s xs lower g = record {
    before = b ∷ g.before;
    after = g.after;
    place = ap (λ l. b ∷ l) g.place;
    earlier = (lower, g.earlier);
    later = g.later;
  }

  kept :
      (b x s : CandidateScore C) (xs before after : List (CandidateScore C))
      → NotAbove b x
      → b ∷ xs ≡ before ++ s ∷ after
      → All (Below s) before
      → All (NotAbove s) after
      → IsFirstGreatest s (b ∷ x ∷ xs)
  kept b x s xs [] after low place earlier later =
      let (is, rest) = cons_injective place in
      record {
        before = [];
        after = x ∷ after;
        place = ap₂ (λ c l. c ∷ x ∷ l) is rest;
        earlier = tt;
        later = (subst (λ c. NotAbove c x) is low, later);
      }
  kept b x s xs (c ∷ before) after low place earlier later =
      let (is, rest) = cons_injective place in
      let under : Below s b = subst (Below s) (sym is) earlier.0 in
      record {
        before = b ∷ x ∷ before;
        after = after;
        place = ap (λ l. b ∷ x ∷ l) rest;
        earlier = (under, (omega (arith, low, under), earlier.1));
        later = later;
      }

  best-IsFirstGreatest :
      (b : CandidateScore C) (ss : List (CandidateScore C)) → IsFirstGreatest (best b ss) (b ∷ ss)
  best-IsFirstGreatest b [] = record {
    before = [];
    after = [];
    place = refl;
    earlier = tt;
    later = tt;
  }
  best-IsFirstGreatest b (x ∷ xs) = elim (better-cases b x) [
    | inl (is, above) ↦
        let lower : Below (best x xs) b = omega (arith, best-NotAbove x xs, above) in
        subst (λ c. IsFirstGreatest (best c xs) (b ∷ x ∷ xs)) (sym is)
          (beaten b x (best x xs) xs lower (best-IsFirstGreatest x xs))
    | inr (is, below) ↦
        let g = best-IsFirstGreatest b xs in
        subst (λ c. IsFirstGreatest (best c xs) (b ∷ x ∷ xs)) (sym is)
          (kept b x (best b xs) xs g.before g.after below g.place g.earlier g.later)
  ]

module _ {T C R : Type 0} (cb : Callbacks T C R) where
  -- A run on a split that differs in its test values alone.
  pub record IsBlind (r : OutOfSample C R) (test : List T)
      (run : Result SelectionError (OutOfSample C R)) : Type 0 where
    pub again : OutOfSample C R
    pub returns : run ≡ ok again
    pub same_candidate : again.selected_candidate ≡ r.selected_candidate
    pub same_scores : again.candidate_scores ≡ r.candidate_scores
    pub evaluated : again.test_result ≡ cb.evaluate_test r.selected_candidate test
    pub score : CandidateScore C
    pub chosen : score.candidate ≡ r.selected_candidate
    pub is_best : IsFirstGreatest score r.candidate_scores

  selected-IsBlind :
      (test other : List T) (ss : List (CandidateScore C)) {r : OutOfSample C R}
      → selected cb test ss ≡ ok r
      → IsBlind r other (selected cb other ss)
  selected-IsBlind test other [] h = absurd (ground arith)
  selected-IsBlind test other (s ∷ ss) h =
      subst (λ r. IsBlind r other (selected cb other (s ∷ ss))) (ok_injective h)
        (record {
          again = _;
          returns = refl;
          same_candidate = refl;
          same_scores = refl;
          evaluated = refl;
          score = best s ss;
          chosen = refl;
          is_best = best-IsFirstGreatest s ss;
        })

  -- The test values have no say in the selection: where a run returns, a run on a split with other
  -- test values returns too, selects the same candidate with the same scores, and gives the
  -- evaluation of that candidate on its own test values; the candidate is the first of those with the
  -- greatest score.
  pub select_out_of_sample-IsBlind :
      (train validation test other : List T) (candidates : List C) {r : OutOfSample C R}
      → select_out_of_sample cb
          (record { train = train; validation = validation; test = test })
          candidates
        ≡ ok r
      → is_empty other ≡ false
      → IsBlind r other (
          select_out_of_sample cb
            (record { train = train; validation = validation; test = other })
            candidates)
  unfolding select_out_of_sample
  select_out_of_sample-IsBlind train validation test other candidates h nonempty =
      let (passed, h1) =
        raise_if-ok (is_empty train || is_empty validation || is_empty test) empty_partitions _ h in
      let (some_candidate, h2) = raise_if-ok (is_empty candidates) no_candidates _ h1 in
      let (ss, are_scores, h3) =
        >>=-ok (scored cb train validation candidates) (selected cb test) h2 in
      let passes : (is_empty train || is_empty validation || is_empty other) ≡ false =
        ground (arith, passed, nonempty) in
      rw (passes, some_candidate, are_scores) (selected-IsBlind test other ss h3)
