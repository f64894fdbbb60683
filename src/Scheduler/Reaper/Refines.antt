-- ===== src/Scheduler/Reaper/Refines.antt =====
-- The sweep, a loop of compare-and-sets, takes each execution on its own through one transition.
use citra_flows.Common.{
  ℕ, ◌≡◌, append_snoc, refl, sym, ap, ◌∙◌, String, Bool, true, false, some, List, [], ◌∷◌, ◌++◌,
  All, Distinct, mem, map, select, ltb, arith, if◌then◌else◌, if_ind, ◌==◌, ==_iff,
}
use citra_flows.Scheduler.Reaper.{
  Execution, Settings, Store, is_stuck, update_one, has_id, is_unchanged, set_cancelled, set_failed,
  set_resuming, roll_back, stored, resume_with, notify_with, reap, reap_all, check_stuck_executions,
}

-- What a sweep should do to a stuck execution.
abbrev pub transition : Settings → ℕ → (String → Bool) → Execution → Execution
transition set now enqueue_works d =
    if d.cancel_requested
    then set_cancelled now d
    else if d.trigger_type == "assistant_test"
    then set_failed now d
    else if ltb d.crash_resume_count set.max_crash_resume_attempts
    then (if enqueue_works d.execution_id
        then set_resuming now d
        else roll_back d.status (set_resuming now d))
    else set_failed now d

abbrev pub swept : Settings → ℕ → (String → Bool) → Execution → Execution
swept set now enqueue_works d = if is_stuck set now d then transition set now enqueue_works d else d

abbrev pub ids : List Execution → List String
ids ds = map (λ d. d.execution_id) ds

-- The update of a document that no earlier one passes for.
update_one-here :
    (p : Execution → Bool) (f : Execution → Execution) (xs : List Execution) (d : Execution)
    (ys : List Execution)
    → All (λ x. p x ≡ false) xs
    → p d ≡ true
    → update_one p f (xs ++ d ∷ ys) ≡ (xs ++ f d ∷ ys, true)
unfolding update_one
update_one-here p f [] d ys a h = rw h refl
update_one-here p f (x ∷ xs) d ys a h = rw (a.0, update_one-here p f xs d ys a.1 h) refl

pub absent_ids :
    (id : String) (xs : List Execution)
    → mem id (ids xs) ≡ false
    → All (λ x. has_id id x ≡ false) xs
absent_ids id [] h = tt
absent_ids id (x ∷ xs) h = (
  ground (arith, ==_iff id x.execution_id, ==_iff x.execution_id id),
  absent_ids id xs (ground arith),
)

absent_unchanged :
    (d : Execution) (xs : List Execution)
    → All (λ x. has_id d.execution_id x ≡ false) xs
    → All (λ x. is_unchanged d x ≡ false) xs
absent_unchanged d [] a = tt
absent_unchanged d (x ∷ xs) a = (ground (arith, a.0), absent_unchanged d xs a.1)

pub same_id : (d : Execution) → has_id d.execution_id d ≡ true
same_id d = (==_iff d.execution_id d.execution_id).1 refl

pub unchanged_self : (d : Execution) → is_unchanged d d ≡ true
unchanged_self d = ground (arith, same_id d, ==_iff d.status d.status)

-- The documents of the store are these, with `d` in its place.
abbrev At : List Execution → List Execution → Execution → Store → Type 0
At xs ys d s = s.docs ≡ xs ++ d ∷ ys

if-At :
    (xs ys : List Execution) (c : Bool) (a b : Execution) (s t : Store)
    → At xs ys a s
    → At xs ys b t
    → At xs ys (if c then a else b) (if c then s else t)
if-At xs ys true a b s t p q = p
if-At xs ys false a b s t p q = q

module _ (xs ys : List Execution) (d : Execution) (s : Store)
    (absent : mem d.execution_id (ids xs) ≡ false) (here : s.docs ≡ xs ++ d ∷ ys) where
  cas_here :
      (f : Execution → Execution) → update_one (is_unchanged d) f s.docs ≡ (xs ++ f d ∷ ys, true)
  cas_here f =
      ap (update_one (is_unchanged d) f) here
      ∙ update_one-here (is_unchanged d) f xs d ys
          (absent_unchanged d xs (absent_ids d.execution_id xs absent)) (unchanged_self d)

  stored_here :
      (f : Execution → Execution) → At xs ys (f d) (stored (update_one (is_unchanged d) f s.docs) s)
  stored_here f = ap (λ r. r.0) (cas_here f)

  resumed_here :
      (set : Settings) (now : ℕ) (works : Bool)
      → At xs ys
          (if works then set_resuming now d else roll_back d.status (set_resuming now d))
          (resume_with works d (update_one (is_unchanged d) (set_resuming now) s.docs) s)
  unfolding resume_with
  resumed_here set now true = ap (λ r. (resume_with true d r s).docs) (cas_here (set_resuming now))
  resumed_here set now false =
      ap (λ r. (resume_with false d r s).docs) (cas_here (set_resuming now))
      ∙ ap (λ r. r.0)
          (update_one-here (has_id d.execution_id) (roll_back d.status) xs (set_resuming now d) ys
            (absent_ids d.execution_id xs absent) (same_id d))

  notified_here :
      (f : Execution → Execution)
      → At xs ys (f d) (notify_with d (update_one (is_unchanged d) f s.docs) s)
  unfolding notify_with
  notified_here f = ap (λ r. (notify_with d r s).docs) (cas_here f)

  reap-transition :
      (set : Settings) (now : ℕ) (enqueue_works : String → Bool)
      → At xs ys (transition set now enqueue_works d) (reap set now enqueue_works d s)
  unfolding reap
  reap-transition set now enqueue_works =
      if-At xs ys d.cancel_requested _ _ _ _ (stored_here (set_cancelled now)) (
        if-At xs ys (d.trigger_type == "assistant_test") _ _ _ _ (stored_here (set_failed now)) (
          if-At xs ys (ltb d.crash_resume_count set.max_crash_resume_attempts) _ _ _ _
            (resumed_here set now (enqueue_works d.execution_id)) (notified_here (set_failed now))))

-- The documents swept so far share no identifier with those to come.
abbrev Apart : List Execution → List Execution → Type 0
Apart zs [] = Unit
Apart zs (d ∷ ds) = (mem d.execution_id (ids zs) ≡ false) × Apart zs ds

module _ (set : Settings) (now : ℕ) (enqueue_works : String → Bool) where
  transition_id :
      (d : Execution) → (transition set now enqueue_works d).execution_id ≡ d.execution_id
  transition_id d =
      let Same = λ (e : Execution). e.execution_id ≡ d.execution_id in
      if_ind Same d.cancel_requested refl (
        if_ind Same (d.trigger_type == "assistant_test") refl (
          if_ind Same (ltb d.crash_resume_count set.max_crash_resume_attempts)
            (if_ind Same (enqueue_works d.execution_id) refl refl) refl))

  pub swept_id : (d : Execution) → (swept set now enqueue_works d).execution_id ≡ d.execution_id
  swept_id d =
      if_ind (λ (e : Execution). e.execution_id ≡ d.execution_id) (is_stuck set now d)
        (transition_id d) refl

  not_among :
      (id : String) (zs : List Execution) (z : Execution)
      → mem id (ids zs) ≡ false
      → (id == z.execution_id) ≡ false
      → mem id (ids (zs ++ z ∷ [])) ≡ false
  not_among id [] z h n = rw n refl
  not_among id (y ∷ zs) z h n = ground (arith, not_among id zs z)

  Apart-snoc :
      (zs : List Execution) (z : Execution) (ds : List Execution)
      → Apart zs ds
      → mem z.execution_id (ids ds) ≡ false
      → Apart (zs ++ z ∷ []) ds
  Apart-snoc zs z [] a h = tt
  Apart-snoc zs z (d ∷ ds) a h = (
    not_among d.execution_id zs z a.0 (
        ground (arith, ==_iff d.execution_id z.execution_id, ==_iff z.execution_id d.execution_id)),
    Apart-snoc zs z ds a.1 (ground arith),
  )

  -- One turn: `z` is what `d` became.
  next_turn :
      (zs : List Execution) (d z : Execution) (ds : List Execution)
      → z.execution_id ≡ d.execution_id
      → Apart zs (d ∷ ds)
      → Distinct (ids (d ∷ ds))
      → Apart (zs ++ z ∷ []) ds
  next_turn zs d z ds e a distinct =
      Apart-snoc zs z ds a.1 (ap (λ id. mem id (ids ds)) e ∙ distinct.0)

  -- The cursor holds `d` or does not.
  select_turn :
      (zs out : List Execution) (d t : Execution) (cursor : List Execution) (s : Store)
      (stuck : Bool)
      → (reap_all set now enqueue_works cursor (reap set now enqueue_works d s)).docs
        ≡ zs ++ t ∷ out
      → (reap_all set now enqueue_works cursor s).docs ≡ zs ++ d ∷ out
      → (reap_all set now enqueue_works (elim stuck [ true ↦ d ∷ cursor | false ↦ cursor ]) s).docs
        ≡ zs ++ (if stuck then t else d) ∷ out
  unfolding reap_all
  select_turn zs out d t cursor s true p q = p
  select_turn zs out d t cursor s false p q = q

  reap_all-swept :
      (zs ds : List Execution) (s : Store)
      → s.docs ≡ zs ++ ds
      → Apart zs ds
      → Distinct (ids ds)
      → (reap_all set now enqueue_works (select (is_stuck set now) ds) s).docs
        ≡ zs ++ map (swept set now enqueue_works) ds
  unfolding reap_all
  reap_all-swept zs [] s here a distinct = here
  reap_all-swept zs (d ∷ ds) s here a distinct =
      let t = transition set now enqueue_works d in
      let out = map (swept set now enqueue_works) ds in
      select_turn zs out d t (select (is_stuck set now) ds) s (is_stuck set now d)
        (reap_all-swept (zs ++ t ∷ []) ds (reap set now enqueue_works d s)
            (reap-transition zs ds d s a.0 here set now enqueue_works ∙ sym (append_snoc zs t ds))
            (next_turn zs d t ds (transition_id d) a distinct) distinct.1
          ∙ append_snoc zs t out)
        (reap_all-swept (zs ++ d ∷ []) ds s (here ∙ sym (append_snoc zs d ds))
            (next_turn zs d d ds refl a distinct) distinct.1
          ∙ append_snoc zs d out)

  nil-Apart : (ds : List Execution) → Apart [] ds
  nil-Apart [] = tt
  nil-Apart (d ∷ ds) = (refl, nil-Apart ds)

  -- A sweep that has the lock, over documents with different identifiers, takes each execution
  -- that is stuck when the sweep begins through one transition, by what is requested of it, its
  -- trigger and the number of its crash-resumes, and leaves the other executions alone.
  pub check_stuck_executions-swept :
      (s : Store)
      → Distinct (ids s.docs)
      → (check_stuck_executions (some true) set now enqueue_works s).docs
        ≡ map (swept set now enqueue_works) s.docs
  unfolding check_stuck_executions
  check_stuck_executions-swept s distinct =
      reap_all-swept [] s.docs s refl (nil-Apart s.docs) distinct
