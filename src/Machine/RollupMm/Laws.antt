-- ===== src/Machine/RollupMm/Laws.antt =====
-- What `MachineManager` sends for a list of inputs, and which claim it computes of an answer.
use descartes_v.Base.{
  ℕ, suc, ◌+◌, ◌≤◌, ◌<◌, ◌≡◌, refl, ◌⊎◌, inl, inr, Option-cases, none, some, List, [], ◌∷◌, ◌++◌,
  length, arith, ◌==◌, ==_iff, ==_ne,
}
use mathlib.Core.Path.{subst}
use Prim.Native.Nat.{◌%◌}
use native.Mathlib.Decide.{ℕ_discrete}
use descartes_v.Outcome.{Outcome, ok, err, panic, expect, assertion, assert, as_u64_lem, u64_mod}
use descartes_v.Effect.{Effect, pure, lift, after, ◌>>=◌, ◌>>◌}
use descartes_v.Fold.Types.{Input}
use descartes_v.Fold.Types.Metadata.{Token, address, uint, get_metadata}
use descartes_v.Machine.{Error}
use descartes_v.Machine.RollupMm.{
  EnqueueInputRequest, GetEpochStatusResponse, Client, MachineManager, accepted, compute_claim_hash,
  enqueue_from, enqueue_inputs, claim_of_response,
}

module _ (encode : List Token → List ℕ) (m : MachineManager) where
  -- One request for each input, the first numbered `first`, the next `first + 1`, and so on.
  abbrev pub requests : (epoch_number first : ℕ) → List Input → List EnqueueInputRequest
  requests epoch_number first [] = []
  requests epoch_number first (input ∷ inputs) =
      record {
        session_id = m.session_id;
        active_epoch_index = epoch_number;
        current_input_index = first;
        input_metadata = encode (address input.sender ∷ uint input.timestamp ∷ []);
        input_payload = input.payload;
      }
      ∷ requests epoch_number (suc first) inputs

module _ {S : Type 0} (client : Client S) where
  -- The requests sent in order, up to the first that is refused.
  abbrev pub send_all : List EnqueueInputRequest → Effect Error S (Unit {0})
  send_all [] = pure tt
  send_all (request ∷ rest) = do accepted (client.enqueue_input request); send_all rest

module _ {S : Type 0} (client : Client S) (encode : List Token → List ℕ) (m : MachineManager)
    (encoded : (a t : ℕ) → length (encode (address a ∷ uint t ∷ [])) ≡ 64) where
  metadata_lem :
      (input : Input)
      → get_metadata encode {E = Error} input
        ≡ ok (encode (address input.sender ∷ uint input.timestamp ∷ []))
  unfolding get_metadata
  metadata_lem input = rw (encoded input.sender input.timestamp) refl

  then_rest :
      (keccak256 : List ℕ → ℕ) (request : EnqueueInputRequest) (k l : Effect Error S (Unit {0}))
      (s : S)
      → ((s' : S) → k s' ≡ l s')
      → (accepted (client.enqueue_input request) >>= λ _. k) s
        ≡ (accepted (client.enqueue_input request) >>= λ _. l) s
  then_rest keccak256 request k l s same = go (accepted (client.enqueue_input request) s)
    where
      go : (r : Outcome Error (Unit {0}) × S) → after r (λ _. k) ≡ after r (λ _. l)
      go (ok _, s') = same s'
      go (err e, s') = refl
      go (panic p, s') = refl

  enqueue_from_lem :
      (keccak256 : List ℕ → ℕ) (epoch_number first i : ℕ) (inputs : List Input) (s : S)
      → epoch_number < u64_mod
      → first + i + length inputs ≤ u64_mod
      → enqueue_from client encode keccak256 m epoch_number first i inputs s
        ≡ send_all client (requests encode m epoch_number (first + i) inputs) s
  unfolding enqueue_from
  enqueue_from_lem keccak256 epoch_number first i [] s small room = refl
  enqueue_from_lem keccak256 epoch_number first i (input ∷ inputs) s small room =
      let index : (first + i) % u64_mod ≡ first + i = omega arith in
      let moved : first + (i + 1) ≡ suc (first + i) = omega arith in
      rw
        (
          as_u64_lem {E = Error} epoch_number small,
          as_u64_lem {E = Error} first (omega arith),
          metadata_lem input,
          index,
        )
        (then_rest keccak256 _ _ _ s (λ s'.
          subst
            (λ j.
              enqueue_from client encode keccak256 m epoch_number first (i + 1) inputs s'
              ≡ send_all client (requests encode m epoch_number j inputs) s')
            moved
            (enqueue_from_lem keccak256 epoch_number first (i + 1) inputs s' small (omega arith))))

  -- If the encoder answers with 64 bytes, and neither the epoch's number nor an index leaves the
  -- range of `u64`, `enqueue_inputs` sends one request for each input, in order and with
  -- consecutive indices from the first one on, and stops at the first that is refused.
  pub enqueue_inputs-eq-send_all :
      (keccak256 : List ℕ → ℕ) (epoch_number first : ℕ) (inputs : List Input) (s : S)
      → epoch_number < u64_mod
      → first + length inputs ≤ u64_mod
      → enqueue_inputs client encode keccak256 m epoch_number first inputs s
        ≡ send_all client (requests encode m epoch_number first inputs) s
  unfolding enqueue_inputs
  enqueue_inputs-eq-send_all keccak256 epoch_number first inputs s small room =
      let same : first + 0 ≡ first = omega arith in
      subst
        (λ j.
          enqueue_from client encode keccak256 m epoch_number first 0 inputs s
          ≡ send_all client (requests encode m epoch_number j inputs) s)
        same (enqueue_from_lem keccak256 epoch_number first 0 inputs s small (omega arith))

module _ {S : Type 0} (client : Client S) (encode : List Token → List ℕ) (keccak256 : List ℕ → ℕ)
    (m : MachineManager) where
  -- What follows once the three hashes are there.
  abbrev joined : (o g h : List ℕ) → Effect Error S ℕ
  joined o g h = do
    lift (assert (length o == 32))
    lift (assert (length g == 32))
    lift (assert (length h == 32))
    pure (keccak256 (o ++ (g ++ h)))

  joined_cases :
      (o g h : List ℕ) (s : S)
      → ((length o ≡ 32)
          × (length g ≡ 32)
          × (length h ≡ 32)
          × (joined o g h s ≡ (ok (keccak256 (o ++ (g ++ h))), s)))
        ⊎ ((¬ ((length o ≡ 32) × (length g ≡ 32) × (length h ≡ 32)))
            × (joined o g h s ≡ (panic assertion, s)))
  joined_cases o g h s = elim (ℕ_discrete (length o) 32) [
    | no n ↦ inr (λ (p, _, _). n p, rw (==_ne (length o) 32 n) refl)
    | yes p ↦ elim (ℕ_discrete (length g) 32) [
      | no n ↦ inr (λ (_, q, _). n q, rw ((==_iff _ _).1 p, ==_ne (length g) 32 n) refl)
      | yes q ↦ elim (ℕ_discrete (length h) 32) [
        | no n ↦
            inr (
              λ (_, _, r). n r,
              rw ((==_iff _ _).1 p, (==_iff _ _).1 q, ==_ne (length h) 32 n) refl,
            )
        | yes r ↦ inl (p, q, r, rw ((==_iff _ _).1 p, (==_iff _ _).1 q, (==_iff _ _).1 r) refl)
      ]
    ]
  ]

  -- The claim of an answer that has all three hashes, of 32 bytes each, is the hash of the
  -- outputs', the messages' and the machine's hashes joined in this order. An answer that has all
  -- three, but not all of 32 bytes, ends in the panic of an assertion; an answer that lacks at
  -- least one ends in the panic of an `expect`. No call is made.
  pub claim_of_response_cases :
      (r : GetEpochStatusResponse) (s : S)
      → ((o g h : List ℕ) × (r.most_recent_outputs_epoch_root_hash ≡ some o)
          × (r.most_recent_messages_epoch_root_hash ≡ some g)
          × (r.most_recent_machine_hash ≡ some h)
          × (((length o ≡ 32)
                × (length g ≡ 32)
                × (length h ≡ 32)
                × (claim_of_response client encode keccak256 m r s
                    ≡ (ok (keccak256 (o ++ (g ++ h))), s)))
              ⊎ ((¬ ((length o ≡ 32) × (length g ≡ 32) × (length h ≡ 32)))
                  × (claim_of_response client encode keccak256 m r s ≡ (panic assertion, s)))))
        ⊎ (((r.most_recent_outputs_epoch_root_hash ≡ none)
              ⊎ (r.most_recent_messages_epoch_root_hash ≡ none)
              ⊎ (r.most_recent_machine_hash ≡ none))
            × (claim_of_response client encode keccak256 m r s ≡ (panic expect, s)))
  unfolding claim_of_response compute_claim_hash
  claim_of_response_cases r s = elim (Option-cases r.most_recent_outputs_epoch_root_hash) [
    | inl e ↦ inr (inl e, rw e refl)
    | inr (o, e) ↦ elim (Option-cases r.most_recent_messages_epoch_root_hash) [
      | inl e' ↦ inr (inr (inl e'), rw (e, e') refl)
      | inr (g, e') ↦ elim (Option-cases r.most_recent_machine_hash) [
        | inl e'' ↦ inr (inr (inr e''), rw (e, e', e'') refl)
        | inr (h, e'') ↦ inl (o, g, h, e, e', e'', rw (e, e', e'') (joined_cases o g h s))
      ]
    ]
  ]
