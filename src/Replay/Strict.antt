-- ===== src/Replay/Strict.antt =====
-- A strict replay of pkg/replay/replay.go serves the recorded run.
use galdor.Provider.{Request}
use galdor.Schema.{Message}
use galdor.Replay.{
  remaining, RecordedCall, ReplayErr, Replayer, by_mode, compared, generate_replay, generate_strict,
  new_provider, prompt_mismatch, request_of, response_or_error, serve, strict,
}
use galdor.Prelude.{
  length, ==_refl, All, List, Result, String, [], ap, arith, drop, err, get_elem?, if◌then◌else◌,
  ok, refl, some, subst, suc, zero, ℕ, ◌+◌, ◌∙◌, ◌∷◌, ◌≡◌,
}

-- The request of each recorded call, in order, and what is answered.
unfoldable pub replay_all :
    {X : Type 0}
    → (Request → Result X String)
    → Replayer
    → List RecordedCall
    → List (Result (ReplayErr X) Message) × Replayer
unfolding generate_replay
replay_all fingerprint p [] = ([], p)
replay_all fingerprint p (c ∷ cs) =
    let (a, q) = generate_replay fingerprint p (request_of c) in
    let (others, last) = replay_all fingerprint q cs in (a ∷ others, last)

abbrev pub answers_of : {X : Type 0} → List RecordedCall → List (Result (ReplayErr X) Message)
answers_of [] = []
answers_of (c ∷ cs) = response_or_error c.response ∷ answers_of cs

pub get_elem?-drop :
    (calls : List RecordedCall) (i : ℕ) (c : RecordedCall) (cs : List RecordedCall)
    → drop i calls ≡ c ∷ cs
    → (get_elem? calls i ≡ some c) × (drop (suc i) calls ≡ cs)
get_elem?-drop [] zero c cs h = cc h
get_elem?-drop [] (suc i) c cs h = cc h
get_elem?-drop (x ∷ calls) zero c cs h = (cc h, cc h)
get_elem?-drop (x ∷ calls) (suc i) c cs h = get_elem?-drop calls i c cs h

module _ {X : Type 0} (fingerprint : Request → Result X String) where
  -- A call whose surface can be encoded.
  abbrev pub HasFingerprint : RecordedCall → Type 0
  HasFingerprint c = (fp : String) × (fingerprint (request_of c) ≡ ok fp)

  -- The replayer after `n` calls.
  abbrev past : Replayer → ℕ → Replayer
  past p n = record p { idx = p.idx + n }

  serve-recorded :
      (p : Replayer) (c : RecordedCall)
      → get_elem? p.calls p.idx ≡ some c
      → HasFingerprint c
      → serve fingerprint p (request_of c) (get_elem? p.calls p.idx) ≡ response_or_error c.response
  serve-recorded p c here (fp, e) =
      ap (serve fingerprint p (request_of c)) here
      ∙ ap (λ r. compared fingerprint p.idx c.response r r) e
      ∙ ap
          (λ b. if b then response_or_error c.response else err (prompt_mismatch (p.idx + 1) fp fp))
          (==_refl fp)

  replay_from :
      (p : Replayer) (cs : List RecordedCall)
      → p.mode ≡ strict
      → drop p.idx p.calls ≡ cs
      → All HasFingerprint cs
      → replay_all fingerprint p cs ≡ (answers_of cs, past p (length cs))
  unfolding replay_all generate_replay generate_strict
  replay_from p [] m at known =
      let same : p.idx ≡ p.idx + 0 = omega arith in ap (λ n. ([], record p { idx = n })) same
  replay_from p (c ∷ cs) m at known =
      let (here, later) = get_elem?-drop p.calls p.idx c cs at in
      let next : suc p.idx ≡ p.idx + 1 = omega arith in
      let all : p.idx + 1 + length cs ≡ p.idx + length (c ∷ cs) = omega arith in
      let others =
        replay_from (past p 1) cs m (subst (λ k. drop k p.calls ≡ cs) next later) known.1 in
      ap
        (λ k.
          let o = by_mode fingerprint k p (request_of c) in
          let rest = replay_all fingerprint o.1 cs in (o.0 ∷ rest.0, rest.1))
        m
      ∙ ap (λ a. let rest = replay_all fingerprint (past p 1) cs in (a ∷ rest.0, rest.1))
          (serve-recorded p c here known.0)
      ∙ ap (λ r. (response_or_error c.response ∷ r.0, r.1)) others
      ∙ ap (λ n. (answers_of (c ∷ cs), record p { idx = n })) all

  past_all : (p : Replayer) → p.idx ≡ 0 → remaining (past p (length p.calls)) ≡ 0
  unfolding remaining
  past_all p at = ground arith

  -- A strict replay that is asked what was recorded, in order, answers each call with its recorded
  -- response, or the error of a missing one, and has no call left, if every call has a fingerprint.
  pub replay_all-answers :
      (calls : List RecordedCall)
      → All HasFingerprint calls
      → let (answers, last) =
          replay_all fingerprint (new_provider fingerprint calls strict) calls in
        (answers ≡ answers_of calls) × (remaining last ≡ 0)
  unfolding new_provider
  replay_all-answers calls known =
      let start = new_provider fingerprint calls strict in
      let run = replay_from start calls refl refl known in
      (ap (λ r. r.0) run, ap (λ r. remaining r.1) run ∙ past_all start refl)
