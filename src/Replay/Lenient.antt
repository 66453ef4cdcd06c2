-- ===== src/Replay/Lenient.antt =====
-- A lenient replay of pkg/replay/replay.go against the recorded calls with the request's fingerprint.
use galdor.Replay.Strict.{get_elem?-drop}
use galdor.Provider.{Request}
use galdor.Schema.{Message}
use galdor.Replay.{
  generate_lenient, generate_replay, lenient, looked_up, new_provider, RecordedCall, ReplayErr,
  Replayer, call_at, cursor_or_zero, from_queue, queue_calls, queue_or_empty, queued, request_of,
  response_at, response_or_error, unknown_prompt,
}
use galdor.Prelude.{
  ==_refl, subst, insert, leb, ◌+◌, ◌-◌, Assoc, Bool, Bool-cases, List, Result, String, [], ap,
  append-nil, append_assoc, arith, drop, eq_iff, err, false, get_elem?, if◌then◌else◌, inl, inr,
  length, lookup, lookup-insert, ok, refl, some, suc, sym, true, zero, ◌++◌, ◌==◌, ◌∙◌, ◌∷◌, ◌≡◌,
  ◌≤◌, ℕ,
}

-- The `k`-th of some calls, the last one if there are fewer.
abbrev pub served : RecordedCall → List RecordedCall → ℕ → RecordedCall
served c [] k = c
served c (d ∷ cs) zero = c
served c (d ∷ cs) (suc k) = served d cs k

abbrev pub in_order : {X : Type 0} → String → List RecordedCall → ℕ → Result (ReplayErr X) Message
in_order fp [] k = err (unknown_prompt fp)
in_order fp (c ∷ cs) k = response_or_error (served c cs k).response

-- The cursor after a call at `k` of `n` calls.
abbrev pub moved : ℕ → ℕ → ℕ
moved n k = if leb n k then k else k + 1

module _ {X : Type 0} (fingerprint : Request → Result X String) (fp : String) where
  abbrev has_fingerprint : Result X String → Bool
  has_fingerprint (err e) = false
  has_fingerprint (ok g) = g == fp

  -- The recorded calls with the fingerprint `fp`.
  abbrev pub matching : List RecordedCall → List RecordedCall
  matching [] = []
  matching (c ∷ cs) =
      if has_fingerprint (fingerprint (request_of c)) then c ∷ matching cs else matching cs

  -- Their places, from `i` on.
  abbrev places : ℕ → List RecordedCall → List ℕ
  places i [] = []
  places i (c ∷ cs) =
      if has_fingerprint (fingerprint (request_of c))
      then i ∷ places (suc i) cs
      else places (suc i) cs

  abbrev queue_in : Assoc (List ℕ) → List ℕ
  queue_in m = queue_or_empty (lookup fp m)

  queue_in-queued :
      (i : ℕ) (m : Assoc (List ℕ)) (r : Result X String)
      → queue_in (queued fingerprint i m r)
        ≡ (if has_fingerprint r then queue_in m ++ i ∷ [] else queue_in m)
  queue_in-queued i m (err e) = refl
  queue_in-queued i m (ok g) =
      let q = queue_or_empty (lookup g m) ++ i ∷ [] in
      elim (Bool-cases (g == fp)) [
        | inl e ↦
            let same : g ≡ fp = (eq_iff g fp).0 e in
            ap queue_or_empty (lookup-insert g fp q m)
            ∙ ap (λ b. queue_or_empty (if b then some q else lookup fp m)) e
            ∙ ap (λ k. queue_or_empty (lookup k m) ++ i ∷ []) same
            ∙ ap (λ b. if b then queue_in m ++ i ∷ [] else queue_in m) (sym e)
        | inr e ↦
            ap queue_or_empty (lookup-insert g fp q m)
            ∙ ap (λ b. queue_or_empty (if b then some q else lookup fp m)) e
            ∙ ap (λ b. if b then queue_in m ++ i ∷ [] else queue_in m) (sym e)
      ]

  queue_in-queue_calls :
      (i : ℕ) (cs : List RecordedCall) (m : Assoc (List ℕ))
      → queue_in (queue_calls fingerprint i cs m) ≡ queue_in m ++ places i cs
  unfolding queue_calls
  queue_in-queue_calls i [] m = sym (append-nil (queue_in m))
  queue_in-queue_calls i (c ∷ cs) m =
      let b = has_fingerprint (fingerprint (request_of c)) in
      let rest = places (suc i) cs in
      queue_in-queue_calls (suc i) cs (queued fingerprint i m (fingerprint (request_of c)))
      ∙ ap (λ q. q ++ rest) (queue_in-queued i m (fingerprint (request_of c)))
      ∙ queue_if b rest
    where
      queue_if :
          (b : Bool) (rest : List ℕ)
          → (if b then queue_in m ++ i ∷ [] else queue_in m) ++ rest
            ≡ queue_in m ++ (if b then i ∷ rest else rest)
      queue_if true rest = append_assoc (queue_in m) (i ∷ []) rest
      queue_if false rest = refl

  -- Places that point to the calls.
  abbrev Point : List RecordedCall → List ℕ → List RecordedCall → Type 0
  Point calls [] [] = Unit
  Point calls [] (c ∷ cs) = ⊥
  Point calls (i ∷ is) [] = ⊥
  Point calls (i ∷ is) (c ∷ cs) = (get_elem? calls i ≡ some c) × Point calls is cs

  places-Point :
      (calls : List RecordedCall) (i : ℕ) (cs : List RecordedCall)
      → drop i calls ≡ cs
      → Point calls (places i cs) (matching cs)
  places-Point calls i [] at = tt
  places-Point calls i (c ∷ cs) at =
      let (here, later) = get_elem?-drop calls i c cs at in
      point_if (has_fingerprint (fingerprint (request_of c))) here
        (places-Point calls (suc i) cs later)
    where
      point_if :
          (b : Bool)
          → get_elem? calls i ≡ some c
          → Point calls (places (suc i) cs) (matching cs)
          → Point calls
              (if b then i ∷ places (suc i) cs else places (suc i) cs)
              (if b then c ∷ matching cs else matching cs)
      point_if true here rest = (here, rest)
      point_if false here rest = rest

  call_at-served :
      (p : Replayer) (i : ℕ) (is : List ℕ) (c : RecordedCall) (cs : List RecordedCall) (k : ℕ)
      → Point p.calls (i ∷ is) (c ∷ cs)
      → k ≤ length is
      → call_at fingerprint p (get_elem? (i ∷ is) k) ≡ response_or_error (served c cs k).response
  call_at-served p i [] c [] zero h le = ap (response_at fingerprint) h.0
  call_at-served p i [] c [] (suc k) h le = absurd (omega arith)
  call_at-served p i [] c (d ∷ cs) k h le = absurd h.1
  call_at-served p i (j ∷ is) c [] k h le = absurd h.1
  call_at-served p i (j ∷ is) c (d ∷ cs) zero h le = ap (response_at fingerprint) h.0
  call_at-served p i (j ∷ is) c (d ∷ cs) (suc k) h le =
      call_at-served p j is d cs k h.1 (omega arith)

  served_last :
      (calls : List RecordedCall) (is : List ℕ) (c : RecordedCall) (cs : List RecordedCall) (k : ℕ)
      → Point calls is cs
      → length is ≤ k
      → served c cs (length is) ≡ served c cs k
  served_last calls [] c [] k h le = refl
  served_last calls [] c (d ∷ cs) k h le = absurd h
  served_last calls (i ∷ is) c [] k h le = absurd h
  served_last calls (i ∷ is) c (d ∷ cs) zero h le = absurd (omega arith)
  served_last calls (i ∷ is) c (d ∷ cs) (suc k) h le = served_last calls is d cs k h.1 (omega arith)

  length-Point :
      (calls : List RecordedCall) (is : List ℕ) (cs : List RecordedCall)
      → Point calls is cs
      → length is ≡ length cs
  length-Point calls [] [] h = refl
  length-Point calls [] (c ∷ cs) h = absurd h
  length-Point calls (i ∷ is) [] h = absurd h
  length-Point calls (i ∷ is) (c ∷ cs) h = ap suc (length-Point calls is cs h.1)

  abbrev IsServed : Replayer → List RecordedCall → Result (ReplayErr X) Message × Replayer → Type 0
  IsServed p cs (answer, q) =
      let k = cursor_or_zero (lookup fp p.cursors) in
      (answer ≡ in_order fp cs k) × (cursor_or_zero (lookup fp q.cursors) ≡ moved (length cs) k)

  from_queue-IsServed :
      (p : Replayer) (is : List ℕ) (cs : List RecordedCall)
      → Point p.calls is cs
      → IsServed p cs (from_queue fingerprint p fp is)
  from_queue-IsServed p [] [] h =
      let k = cursor_or_zero (lookup fp p.cursors) in
      let none_left : leb 0 k ≡ true = ground arith in
      (refl, sym (ap (λ b. if b then k else k + 1) none_left))
  from_queue-IsServed p [] (c ∷ cs) h = absurd h
  from_queue-IsServed p (i ∷ is) [] h = absurd h
  from_queue-IsServed p (i ∷ is) (c ∷ cs) h = elim (Bool-cases (leb (length (i ∷ is)) k)) [
    | inl e ↦
        subst (λ b. IsServed p (c ∷ cs) (chosen b)) (sym e)
          (
            ap (λ n. call_at fingerprint p (get_elem? (i ∷ is) n)) last
                ∙ call_at-served p i is c cs (length is) h (omega arith)
                ∙ ap (λ (d : RecordedCall). response_or_error d.response)
                    (served_last p.calls is c cs k h.1 (ground arith)),
            sym (ap (λ b. if b then k else k + 1) (counted ∙ e)),
          )
    | inr e ↦
        subst (λ b. IsServed p (c ∷ cs) (chosen b)) (sym e)
          (
            call_at-served p i is c cs k h (ground arith),
            ap cursor_or_zero (lookup-insert fp fp (k + 1) p.cursors)
                ∙ ap (λ b. cursor_or_zero (if b then some (k + 1) else lookup fp p.cursors))
                    (==_refl fp)
                ∙ sym (ap (λ b. if b then k else k + 1) (counted ∙ e)),
          )
  ]
    where
      k : ℕ
      k = cursor_or_zero (lookup fp p.cursors)

      chosen : Bool → Result (ReplayErr X) Message × Replayer
      chosen b =
          if b then (call_at fingerprint p (get_elem? (i ∷ is) (length (i ∷ is) - 1)), p) else (
            call_at fingerprint p (get_elem? (i ∷ is) k),
            record p { cursors = insert fp (k + 1) p.cursors },
          )

      last : length (i ∷ is) - 1 ≡ length is
      last = omega arith

      counted : leb (length (c ∷ cs)) k ≡ leb (length (i ∷ is)) k
      counted = ap (λ n. leb n k) (sym (length-Point p.calls (i ∷ is) (c ∷ cs) h))

  -- For a request with the fingerprint `fp`, a lenient replay over any cursors answers with the recorded
  -- response, or the error of a missing one, of the call that the cursor of `fp` points to among the
  -- calls with that fingerprint, in the order of the recording, or of the last of them once all are
  -- served, and moves the cursor on by one until then; without such a call it is the error of an
  -- unknown prompt.
  pub generate_replay-in-order :
      (calls : List RecordedCall) (cursors : Assoc ℕ) (req : Request)
      → fingerprint req ≡ ok fp
      → let p = record (new_provider fingerprint calls lenient) { cursors = cursors } in
        let (answer, q) = generate_replay fingerprint p req in
        let k = cursor_or_zero (lookup fp cursors) in
        (answer ≡ in_order fp (matching calls) k)
        × (cursor_or_zero (lookup fp q.cursors) ≡ moved (length (matching calls)) k)
  unfolding generate_replay generate_lenient new_provider lookup
  generate_replay-in-order calls cursors req e =
      let p = record (new_provider fingerprint calls lenient) { cursors = cursors } in
      let queue : queue_in p.fingerprints ≡ places 0 calls = queue_in-queue_calls 0 calls [] in
      subst (λ r. IsServed p (matching calls) (looked_up fingerprint p r)) (sym e)
        (subst (λ q. IsServed p (matching calls) (from_queue fingerprint p fp q)) (sym queue)
          (from_queue-IsServed p (places 0 calls) (matching calls)
            (places-Point calls 0 calls refl)))
