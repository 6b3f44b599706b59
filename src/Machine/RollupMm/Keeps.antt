-- ===== src/Machine/RollupMm/Keeps.antt =====
-- `MachineManager` (offchain/src/machine/rollup_mm.rs) over a server that keeps the inputs it
-- accepts: it is a machine as the node expects it.
use descartes_v.Base.{
  ℕ, ◌+◌, ◌≡◌, refl, sym, ◌∙◌, ap, Bool, true, false, Option, none, some, List, [], ◌∷◌, ◌++◌,
  append-nil, append_assoc, length,
}
use mathlib.Core.Path.{subst}
use Prim.Native.Nat.{◌%◌}
use descartes_v.Outcome.{Outcome, ok, err, panic, as_u64, as_u64-eq-ok, u64_mod, ok-injective}
use descartes_v.Effect.{Effect, pure, lift, after, ◌>>=◌, >>=-eq-ok, >>=-ok}
use descartes_v.Fold.Types.{Input}
use descartes_v.Fold.Types.Metadata.{Token, get_metadata}
use descartes_v.Machine.{Error, EpochStatus}
use descartes_v.Machine.RollupMm.{
  Client, MachineManager, GetSessionStatusResponse, GetEpochStatusResponse, EnqueueInputRequest,
  answer, accepted, from_response, get_current_epoch_status, enqueue_from, enqueue_inputs,
  machine_manager,
}
use descartes_v.Logic.React.Delivery.{Receives}

-- The request for an input.
abbrev pub request :
    MachineManager → (epoch index : ℕ) → (metadata : List ℕ) → Input → EnqueueInputRequest
request m epoch index metadata input = record {
  session_id = m.session_id;
  active_epoch_index = epoch;
  current_input_index = index;
  input_metadata = metadata;
  input_payload = input.payload;
}

module _ {S : Type 0} where
  -- A server that keeps the inputs that it accepts, in order, with the epoch that the session is
  -- on; its answers count the inputs, and asking changes nothing.
  pub record Keeps (client : Client S) (encode : List Token → List ℕ) (m : MachineManager)
      : Type 0 where
    pub kept : S → ℕ → List Input
    pub active : S → ℕ
    pub taken :
        (epoch index : ℕ) (metadata : List ℕ) (input : Input) (s : S)
        → get_metadata encode {E = Error} input ≡ ok metadata
        → (client.enqueue_input (request m epoch index metadata input) s).0 ≡ true
        → kept (client.enqueue_input (request m epoch index metadata input) s).1 epoch
          ≡ kept s epoch ++ input ∷ []
    pub taken_active :
        (epoch index : ℕ) (metadata : List ℕ) (input : Input) (s : S)
        → (client.enqueue_input (request m epoch index metadata input) s).0 ≡ true
        → active (client.enqueue_input (request m epoch index metadata input) s).1 ≡ active s
    pub session :
        (s : S) (r : GetSessionStatusResponse)
        → (client.get_session_status (record { session_id = m.session_id }) s).0 ≡ some r
        → r.active_epoch_index ≡ active s
    pub session_asked :
        (s : S) → (client.get_session_status (record { session_id = m.session_id }) s).1 ≡ s
    pub epoch :
        (s : S) (e : ℕ) (r : GetEpochStatusResponse)
        → (client.get_epoch_status (record { session_id = m.session_id; epoch_index = e }) s).0
          ≡ some r
        → (r.epoch_index ≡ e)
          × (length r.processed_inputs + r.pending_input_count ≡ length (kept s e))
    pub epoch_asked :
        (s : S) (e : ℕ)
        → (client.get_epoch_status (record { session_id = m.session_id; epoch_index = e }) s).1 ≡ s

-- A call that was answered, or accepted.
answer-eq-ok :
    {S A : Type 0} (call : S → Option A × S) (s : S) {a : A}
    → (answer call s).0 ≡ ok a
    → ((call s).0 ≡ some a)
answer-eq-ok {S} {A} call s {a} e = go (call s).0 refl e
  where
    go :
        (r : Option A)
        → (call s).0 ≡ r
        → ◌≡◌ {A = Outcome Error A} (answer (λ _. (r, (call s).1)) s).0 (ok a)
        → (call s).0 ≡ some a
    go none here e = cc
    go (some b) here e = here ∙ ap some (ok-injective e)

answer-state : {S A : Type 0} (call : S → Option A × S) (s : S) → (answer call s).1 ≡ (call s).1
answer-state {S} {A} call s = go (call s).0
  where
    go : (r : Option A) → (answer (λ _. (r, (call s).1)) s).1 ≡ (call s).1
    go none = refl
    go (some b) = refl

accepted-eq-ok :
    {S : Type 0} (call : S → Bool × S) (s : S) → (accepted call s).0 ≡ ok tt → ((call s).0 ≡ true)
accepted-eq-ok {S} call s e = go (call s).0 refl e
  where
    go :
        (r : Bool)
        → (call s).0 ≡ r
        → ◌≡◌ {A = Outcome Error (Unit {0})} (accepted (λ _. (r, (call s).1)) s).0 (ok tt)
        → (call s).0 ≡ true
    go true here e = here
    go false here e = cc

accepted-state : {S : Type 0} (call : S → Bool × S) (s : S) → (accepted call s).1 ≡ (call s).1
accepted-state {S} call s = go (call s).0
  where
    go : (r : Bool) → (accepted (λ _. (r, (call s).1)) s).1 ≡ (call s).1
    go true = refl
    go false = refl

-- Calls that change nothing.
asks :
    {S A B : Type 0} (call : Effect Error S A) (k : A → Effect Error S B) (s : S)
    → (call s).1 ≡ s
    → ((a : A) → (k a s).1 ≡ s)
    → ((call >>= k) s).1 ≡ s
asks {S} {A} {B} call k s same rest = go (call s).0
  where
    go : (r : Outcome Error A) → (after (r, (call s).1) k).1 ≡ s
    go (ok a) = subst (λ x. (k a x).1 ≡ s) (sym same) (rest a)
    go (err x) = same
    go (panic p) = same

module _ {S : Type 0} (client : Client S) (encode : List Token → List ℕ) (keccak256 : List ℕ → ℕ)
    (m : MachineManager) (keeps : Keeps client encode m) where
  -- Some inputs more are kept, in the same epoch.
  abbrev pub Kept : (s s' : S) (e : ℕ) → List Input → Type 0
  Kept s s' e inputs =
      (keeps.kept s' e ≡ keeps.kept s e ++ inputs) × (keeps.active s' ≡ keeps.active s)

  Kept_trans :
      (s s' s'' : S) (e : ℕ) (input : Input) (inputs : List Input)
      → Kept s s' e (input ∷ [])
      → Kept s' s'' e inputs
      → Kept s s'' e (input ∷ inputs)
  Kept_trans s s' s'' e input inputs (one, same) (more, same') = (
    more ∙ ap (λ l. l ++ inputs) one ∙ append_assoc (keeps.kept s e) (input ∷ []) inputs,
    same' ∙ same,
  )

  -- The call for one input.
  abbrev send : (epoch index : ℕ) (metadata : List ℕ) → Input → Effect Error S (Unit {0})
  send epoch index metadata input =
      accepted (client.enqueue_input (request m epoch index metadata input))

  send-Kept :
      (epoch index e : ℕ) (metadata : List ℕ) (input : Input) (s : S)
      → epoch ≡ e
      → get_metadata encode {E = Error} input ≡ ok metadata
      → (send epoch index metadata input s).0 ≡ ok tt
      → Kept s (send epoch index metadata input s).1 e (input ∷ [])
  send-Kept epoch index e metadata input s same made sent =
      let call : S → Bool × S = client.enqueue_input (request m epoch index metadata input) in
      let took = accepted-eq-ok call s sent in
      subst (λ n. Kept s (send epoch index metadata input s).1 n (input ∷ [])) same
        (rw (accepted-state call s) (
          keeps.taken epoch index metadata input s made took,
          keeps.taken_active epoch index metadata input s took,
        ))

  pub enqueue_from-Kept :
      (e first i : ℕ) (inputs : List Input) (s : S)
      → (enqueue_from client encode keccak256 m e first i inputs s).0 ≡ ok tt
      → Kept s (enqueue_from client encode keccak256 m e first i inputs s).1 e inputs
  unfolding enqueue_from
  enqueue_from-Kept e first i [] s ended = (rw append-nil, refl)
  enqueue_from-Kept e first i (input ∷ inputs) s ended =
      let (epoch, in_range, e1) = >>=-eq-ok (lift (as_u64 e)) _ s ended in
      let (first', in_range', e2) = >>=-eq-ok (lift (as_u64 first)) _ s e1 in
      let (metadata, made, e3) = >>=-eq-ok (lift (get_metadata encode input)) _ s e2 in
      let call : Effect Error S (Unit {0}) = send epoch ((first' + i) % u64_mod) metadata input in
      let (_, sent, e4) =
        >>=-eq-ok call (λ _. enqueue_from client encode keccak256 m e first (i + 1) inputs) s e3 in
      let one =
        send-Kept epoch ((first' + i) % u64_mod) e metadata input s
          (as_u64-eq-ok {E = Error} e in_range).0 made sent in
      rw (in_range, in_range', made)
        (rw
          (>>=-ok call (λ _. enqueue_from client encode keccak256 m e first (i + 1) inputs) s sent)
          (Kept_trans s (call s).1 _ e input inputs one
            (enqueue_from-Kept e first (i + 1) inputs (call s).1 e4)))

  abbrev session_call : S → Option GetSessionStatusResponse × S
  session_call = client.get_session_status (record { session_id = m.session_id })

  abbrev epoch_call : ℕ → S → Option GetEpochStatusResponse × S
  epoch_call e = client.get_epoch_status (record { session_id = m.session_id; epoch_index = e })

  abbrev ask_session : Effect Error S GetSessionStatusResponse
  ask_session = answer session_call

  abbrev ask_epoch : ℕ → Effect Error S GetEpochStatusResponse
  ask_epoch e = answer (epoch_call e)

  ask_session-state : (s : S) → (ask_session s).1 ≡ s
  ask_session-state s = answer-state session_call s ∙ keeps.session_asked s

  ask_epoch-state : (e : ℕ) (s : S) → (ask_epoch e s).1 ≡ s
  ask_epoch-state e s = answer-state (epoch_call e) s ∙ keeps.epoch_asked s e

  pub get_current_epoch_status-state :
      (s : S) → (get_current_epoch_status client encode keccak256 m s).1 ≡ s
  unfolding get_current_epoch_status
  get_current_epoch_status-state s = asks ask_session _ s (ask_session-state s) (λ session.
      asks (ask_epoch session.active_epoch_index) (λ r. pure (from_response r)) s
        (ask_epoch-state session.active_epoch_index s) (λ r. refl))

  -- The status is about the epoch that the session is on, and counts its inputs.
  abbrev pub StatusAt : S → EpochStatus → Type 0
  StatusAt s status =
      (status.epoch_number ≡ keeps.active s)
      × (status.processed_input_count + status.pending_input_count
          ≡ length (keeps.kept s status.epoch_number))

  response-StatusAt :
      (s : S) (e : ℕ) (r : GetEpochStatusResponse) (status : EpochStatus)
      → e ≡ keeps.active s
      → (ask_epoch e s).0 ≡ ok r
      → ◌≡◌ {A = Outcome Error EpochStatus} (ok (from_response r)) (ok status)
      → StatusAt s status
  unfolding from_response
  response-StatusAt s e r status same got last =
      let (index, counts) = keeps.epoch s e r (answer-eq-ok (epoch_call e) s got) in
      subst (StatusAt s) (ok-injective last)
        (index ∙ same, counts ∙ ap (λ n. length (keeps.kept s n)) (sym index))

  pub get_current_epoch_status-StatusAt :
      (s : S) (status : EpochStatus)
      → (get_current_epoch_status client encode keccak256 m s).0 ≡ ok status
      → StatusAt s status
  unfolding get_current_epoch_status
  get_current_epoch_status-StatusAt s status e =
      let (session, got, e1) = >>=-eq-ok ask_session _ s e in
      let (r, got', last) =
        >>=-eq-ok (ask_epoch session.active_epoch_index) (λ r. pure (from_response r)) s
          (subst
            (λ x.
              ((ask_epoch session.active_epoch_index >>= λ r. pure (from_response r)) x).0
              ≡ ok status)
            (ask_session-state s) e1) in
      response-StatusAt s session.active_epoch_index r status
        (keeps.session s session (answer-eq-ok session_call s got)) got' last

  -- Over a server that keeps the inputs that it accepts, `MachineManager` is a machine as the
  -- delivery of the inputs relies on: a call of `enqueue_inputs` that succeeds adds exactly its
  -- inputs, in order, to those of its epoch, and stays on the epoch that the session is on; the
  -- status is about that epoch and counts its inputs, and asking for it changes nothing.
  unfoldable pub machine_manager-Receives : Receives (machine_manager client encode keccak256 m)
  unfolding machine_manager enqueue_inputs
  machine_manager-Receives = record {
    received = keeps.kept;
    enqueued = λ e k inputs s ended. (enqueue_from-Kept e k 0 inputs s ended).0;
    counted = λ s status e. (get_current_epoch_status-StatusAt s status e).1;
    asked = λ s e. ap (λ x. keeps.kept x e) (get_current_epoch_status-state s);
    current = keeps.active;
    reported = λ s status e. (get_current_epoch_status-StatusAt s status e).0;
    enqueue_stays = λ e k inputs s ended. (enqueue_from-Kept e k 0 inputs s ended).1;
    asked_stays = λ s. ap keeps.active (get_current_epoch_status-state s);
  }
