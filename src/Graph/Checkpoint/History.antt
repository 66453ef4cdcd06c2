-- ===== src/Graph/Checkpoint/History.antt =====
-- What `MemoryCheckpointer` of pkg/graph/checkpoint.go keeps: the latest save can be loaded, the
-- history of a run is the end of the sequence of its saves, and it stays within the limit.
use mathlib.Core.Path.{◌≡⟨◌⟩◌, ◌∎}
use galdor.Prelude.{
  min, negsuc, pos, take, Result, ok, ℤ, ℕ, zero, suc, ◌+◌, ◌-◌, ◌≤◌, ◌<◌, ltb, ◌&&◌, String,
  Bool-cases, List, [], ◌∷◌, ◌++◌, append_assoc, append-nil, ◌≡◌, inl, inr, refl, sym, ap, ◌∙◌,
  ◌==◌, ==_refl, arith, eq_iff, if◌then◌else◌, lookup, lookup-insert, length, length-append,
  length-drop, take, take-append-drop, drop, drop-append, drop-drop, get_last?, get_last?-snoc,
}
use galdor.Graph.Core.{Checkpoint, found}
use galdor.Graph.Checkpoint.{
  MemoryCheckpointer, new_memory_checkpointer_with_limit, history_of, trim, save, load, last_saved,
  or_empty, clamp,
}

module _ {A : Type 0} where
  get_last?-drop : (n : ℕ) (xs : List A) → n < length xs → get_last? (drop n xs) ≡ get_last? xs
  get_last?-drop zero xs h = refl
  get_last?-drop (suc n) [] h = absurd (omega arith)
  get_last?-drop (suc zero) (x ∷ []) h = absurd (omega arith)
  get_last?-drop (suc (suc n)) (x ∷ []) h = absurd (omega arith)
  get_last?-drop (suc n) (x ∷ y ∷ xs) h = get_last?-drop n (y ∷ xs) (omega arith)

-- How many of `n` checkpoints a limit drops.
abbrev excess : ℕ → ℕ → ℕ
excess limit n = if ltb 0 limit then n - limit else 0

-- How many of `n` checkpoints a run keeps: all of them without a positive limit.
abbrev pub kept : ℤ → ℕ → ℕ
kept (pos zero) n = n
kept (pos (suc limit)) n = min (suc limit) n
kept (negsuc limit) n = n

kept-excess : (limit : ℤ) (n : ℕ) → n - excess (clamp limit) n ≡ kept limit n
kept-excess (pos zero) n = omega arith
kept-excess (pos (suc limit)) n = ground arith
kept-excess (negsuc limit) n = omega arith

module _ {S : Type 0} where
  trim_last : (limit : ℕ) (h : List (Checkpoint S)) → get_last? (trim limit h) ≡ get_last? h
  unfolding trim
  trim_last limit h = elim (Bool-cases (ltb 0 limit && ltb limit (length h))) [
    | inl e ↦ rw (e, trim) (get_last?-drop (length h - limit) h (ground arith))
    | inr e ↦ rw (e, trim)
  ]

  length-trim : (limit : ℕ) (h : List (Checkpoint S)) → 0 < limit → length (trim limit h) ≤ limit
  unfolding trim
  length-trim limit h p = elim (Bool-cases (ltb 0 limit && ltb limit (length h))) [
    | inl e ↦ rw (e, trim) (omega (arith, length-drop (length h - limit) h))
    | inr e ↦ rw (e, trim) (ground arith)
  ]

  trim-drop :
      (limit : ℕ) (h : List (Checkpoint S)) → trim limit h ≡ drop (excess limit (length h)) h
  unfolding trim
  trim-drop limit h = elim (Bool-cases (ltb 0 limit)) [
    | inr z ↦ rw (z, trim)
    | inl z ↦ elim (Bool-cases (ltb limit (length h))) [
      | inl e ↦ rw (z, e, trim)
      | inr e ↦ let none_over : length h - limit ≡ 0 = ground arith in rw (z, e, none_over, trim)
    ]
  ]

  -- Trimming early does not change the end of the history.
  trim-trim :
      (limit : ℕ) (h xs : List (Checkpoint S))
      → trim limit (trim limit h ++ xs) ≡ trim limit (h ++ xs)
  trim-trim limit h xs =
      let e1 = excess limit (length h) in
      let fits : e1 ≤ length h = ground arith in
      let e2 = excess limit (length (drop e1 h ++ xs)) in
      let total : e1 + e2 ≡ excess limit (length (h ++ xs)) =
        ground (arith, length-append (drop e1 h) xs, length-append h xs, length-drop e1 h) in
      trim limit (trim limit h ++ xs)
      ≡⟨ ap (λ t. trim limit (t ++ xs)) (trim-drop limit h) ⟩ trim limit (drop e1 h ++ xs)
      ≡⟨ trim-drop limit (drop e1 h ++ xs) ⟩ drop e2 (drop e1 h ++ xs)
      ≡⟨ ap (drop e2) (sym (drop-append e1 h xs fits)) ⟩ drop e2 (drop e1 (h ++ xs))
      ≡⟨ drop-drop e2 e1 (h ++ xs) ⟩ drop (e1 + e2) (h ++ xs)
      ≡⟨ ap (λ n. drop n (h ++ xs)) total ⟩ drop (excess limit (length (h ++ xs))) (h ++ xs)
      ≡⟨ sym (trim-drop limit (h ++ xs)) ⟩ trim limit (h ++ xs) ∎

  -- A save that copies the state changes the history of its own run only.
  history_of-save :
      {X : Type 0} (clone : S → Result X S) (ck : Checkpoint S) (s : S) (m : MemoryCheckpointer S)
      (run_id : String)
      → clone ck.state ≡ ok s
      → history_of run_id (save clone ck m).1 ≡ (
          if ck.run_id == run_id
          then trim m.limit (history_of run_id m ++ record ck { state = s } ∷ [])
          else history_of run_id m)
  unfolding save history_of
  history_of-save clone ck s m run_id c =
      rw (c, save, lookup-insert)
        (elim (Bool-cases (ck.run_id == run_id)) [
          | inl e ↦ rw e (
              ap (λ x. trim m.limit (or_empty (lookup x m.history) ++ record ck { state = s } ∷ []))
                ((eq_iff ck.run_id run_id).0 e))
          | inr e ↦ rw e
        ])

  -- A checkpoint whose state can be copied is what `load` finds for its run, at any limit.
  pub load-save :
      {X : Type 0} (clone : S → Result X S) (ck : Checkpoint S) (s : S) (m : MemoryCheckpointer S)
      → clone ck.state ≡ ok s
      → load {X = X} ck.run_id (save clone ck m).1 ≡ found (record ck { state = s })
  unfolding load
  load-save {X} clone ck s m c = ap (last_saved {X = X}) (
      ap get_last? {y = trim m.limit (history_of ck.run_id m ++ record ck { state = s } ∷ [])}
        (history_of-save clone ck s m ck.run_id c ∙ rw (==_refl ck.run_id))
      ∙ trim_last m.limit (history_of ck.run_id m ++ record ck { state = s } ∷ [])
      ∙ get_last?-snoc (history_of ck.run_id m) (record ck { state = s }))

  -- The saves of a loop, one after the other; a state is copied by `copy`.
  pub save_all : (S → S) → List (Checkpoint S) → MemoryCheckpointer S → MemoryCheckpointer S
  save_all copy [] m = m
  save_all copy (ck ∷ cks) m = save_all copy cks (save {X = Unit} (λ s. ok (copy s)) ck m).1

  -- The checkpoints among them of one run, as they are stored.
  pub copies_of : (S → S) → String → List (Checkpoint S) → List (Checkpoint S)
  copies_of copy run_id [] = []
  copies_of copy run_id (ck ∷ cks) =
      let rest = copies_of copy run_id cks in
      if ck.run_id == run_id then record ck { state = copy ck.state } ∷ rest else rest

  trim_idem : (limit : ℕ) (h : List (Checkpoint S)) → trim limit (trim limit h) ≡ trim limit h
  trim_idem limit h =
      ap (trim limit) (sym (append-nil (trim limit h)))
      ∙ trim-trim limit h []
      ∙ ap (trim limit) (append-nil h)

  pub limit-save :
      {X : Type 0} (clone : S → Result X S) (ck : Checkpoint S) (m : MemoryCheckpointer S)
      → (save clone ck m).1.limit ≡ m.limit
  unfolding save
  limit-save clone ck m = ground arith

  history_of-save_all :
      (copy : S → S) (cks : List (Checkpoint S)) (m : MemoryCheckpointer S) (run_id : String)
      (limit : ℕ)
      → m.limit ≡ limit
      → trim limit (history_of run_id m) ≡ history_of run_id m
      → history_of run_id (save_all copy cks m)
        ≡ trim limit (history_of run_id m ++ copies_of copy run_id cks)
  unfolding save_all copies_of
  history_of-save_all copy [] m run_id limit l t = sym (ap (trim limit) (append-nil _) ∙ t)
  history_of-save_all copy (ck ∷ cks) m run_id limit l t =
      let clone : S → Result Unit S = λ s. ok (copy s) in
      let m' = (save clone ck m).1 in
      let ck' : Checkpoint S = record ck { state = copy ck.state } in
      let saved = history_of-save clone ck (copy ck.state) m run_id refl in
      let l' : m'.limit ≡ limit = limit-save clone ck m ∙ l in
      elim (Bool-cases (ck.run_id == run_id)) [
        | inl e ↦
            let same : history_of run_id m' ≡ trim limit (history_of run_id m ++ ck' ∷ []) =
              (rw e at saved) ∙ ap (λ n. trim n (history_of run_id m ++ ck' ∷ [])) l in
            let ih =
              history_of-save_all copy cks m' run_id limit l'
                (rw same (trim_idem limit (history_of run_id m ++ ck' ∷ []))) in
            rw e (
              ih
              ∙ ap (λ h. trim limit (h ++ copies_of copy run_id cks)) same
              ∙ trim-trim limit (history_of run_id m ++ ck' ∷ []) (copies_of copy run_id cks)
              ∙ ap (trim limit) (append_assoc (history_of run_id m) (ck' ∷ []) _))
        | inr e ↦
            let same : history_of run_id m' ≡ history_of run_id m = rw e at saved in
            let ih = history_of-save_all copy cks m' run_id limit l' (rw same t) in
            rw e (ih ∙ ap (λ h. trim limit (h ++ copies_of copy run_id cks)) same)
      ]

  history-trim :
      (copy : S → S) (cks : List (Checkpoint S)) (limit : ℤ) (run_id : String)
      → history_of run_id (save_all copy cks (new_memory_checkpointer_with_limit limit))
        ≡ trim (clamp limit) (copies_of copy run_id cks)
  unfolding new_memory_checkpointer_with_limit history_of lookup trim
  history-trim copy cks limit run_id =
      history_of-save_all copy cks (new_memory_checkpointer_with_limit limit) run_id (clamp limit)
        refl (ground arith)

  -- After any saves, the history of a run is the end of the sequence of that run's saves, in their
  -- order, and nothing else: `limit` of them or all if they are fewer, and all without a positive
  -- limit.
  pub history-save_all :
      (copy : S → S) (cks : List (Checkpoint S)) (limit : ℤ) (run_id : String)
      → let history =
          history_of run_id (save_all copy cks (new_memory_checkpointer_with_limit limit)) in
        let saved = copies_of copy run_id cks in
        (older : List (Checkpoint S)) × (older ++ history ≡ saved)
        × (length history ≡ kept limit (length saved))
  history-save_all copy cks limit run_id =
      let saved = copies_of copy run_id cks in
      let gone = excess (clamp limit) (length saved) in
      let same = history-trim copy cks limit run_id ∙ trim-drop (clamp limit) saved in
      (
        take gone saved,
        ap (λ h. take gone saved ++ h) same ∙ take-append-drop gone saved,
        ap length same ∙ length-drop gone saved ∙ kept-excess limit (length saved),
      )

  -- With a positive limit no run's history is longer than the limit, whatever was saved.
  pub history_bounded :
      (copy : S → S) (cks : List (Checkpoint S)) (limit : ℤ) (run_id : String)
      → 0 < clamp limit
      → length (history_of run_id (save_all copy cks (new_memory_checkpointer_with_limit limit)))
        ≤ clamp limit
  history_bounded copy cks limit run_id h =
      rw history-trim (length-trim (clamp limit) (copies_of copy run_id cks) h)
