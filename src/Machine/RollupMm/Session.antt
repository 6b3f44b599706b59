-- ===== src/Machine/RollupMm/Session.antt =====
-- `MachineManager::new` (offchain/src/machine/rollup_mm.rs): the session of the rollup machine
-- manager is started where it does not exist. The types of the protocol that are passed on
-- unread are parameters.
use descartes_v.Base.{
  ℕ, ◌≡◌, refl, ap, String, Bool, true, false, ◌||◌, Option, none, some, List, [], ◌∷◌,
  if◌then◌else◌,
}
use text.Mathlib.Text.{◌==◌}
use descartes_v.Outcome.{Outcome, ok, err}
use descartes_v.Effect.{Effect, pure, after, ◌>>=◌, ◌>>◌}
use descartes_v.Machine.{Error, tonic_transport_error}
use descartes_v.Machine.RollupMm.{MachineManager, answer, accepted}

module _ (Request Description Descriptions Deadline : Type 0) where
  pub record Config : Type 0 where
    pub endpoint : String
    pub session_id : String
    pub storage_directory : String
    pub machine : Request
    pub max_cycles_per_input : ℕ
    pub cycles_per_input_chunk : ℕ
    pub input_description : Description
    pub outputs_description : Descriptions
    pub messages_description : Descriptions
    pub server_deadline : Deadline

  pub record StartSessionRequest : Type 0 where
    pub session_id : String
    pub active_epoch_index : ℕ
    pub machine : Option Request
    pub max_cycles_per_input : ℕ
    pub cycles_per_input_chunk : ℕ
    pub input_description : Option Description
    pub outputs_description : Option Descriptions
    pub messages_description : Option Descriptions
    pub server_deadline : Option Deadline

  -- The client's `connect`, `get_status` with the sessions of the answer, and `start_session`.
  pub record Server (S : Type 0) : Type 0 where
    pub connect : (endpoint : String) → S → Bool × S
    pub get_status : S → Option (List String) × S
    pub start_session : StartSessionRequest → S → Bool × S

-- `Vec::contains` on the session ids
unfoldable pub has_session : String → List String → Bool
has_session id [] = false
has_session id (x ∷ xs) = (x == id) || has_session id xs

-- `.await.context(TonicTransportError)?`
abbrev connected : {S : Type 0} → Bool × S → Outcome Error (Unit {0}) × S
connected (true, s) = (ok tt, s)
connected (false, s) = (err tonic_transport_error, s)

module _ {Request Description Descriptions Deadline S : Type 0}
    (server : Server Request Description Descriptions Deadline S)
    (config : Config Request Description Descriptions Deadline) where
  abbrev start_request : StartSessionRequest Request Description Descriptions Deadline
  start_request = record {
    session_id = config.session_id;
    active_epoch_index = 0;
    machine = some config.machine;
    max_cycles_per_input = config.max_cycles_per_input;
    cycles_per_input_chunk = config.cycles_per_input_chunk;
    input_description = some config.input_description;
    outputs_description = some config.outputs_description;
    messages_description = some config.messages_description;
    server_deadline = some config.server_deadline;
  }

  abbrev manager : MachineManager
  manager = record { session_id = config.session_id; storage_directory = config.storage_directory }

  -- The part of `new` after the answer: the session is started unless it exists.
  unfoldable pub open_session : (session_exists : Bool) → Effect Error S MachineManager
  open_session session_exists =
      if session_exists
      then pure manager
      else (do accepted (server.start_session start_request); pure manager)

  unfoldable pub new_machine_manager : Effect Error S MachineManager
  new_machine_manager = do
    (λ s. connected (server.connect config.endpoint s))
    sessions ← answer server.get_status
    open_session (has_session config.session_id sessions)

  -- What the server documents of its sessions: `get_status` lists them, and a session that was
  -- started is among them.
  pub record KeepsSessions (sessions : S → List String) : Type 0 where
    pub listed : (s s' : S) (l : List String) → server.get_status s ≡ (some l, s') → l ≡ sessions s'
    pub started :
        (s s' : S)
        → server.start_session start_request s ≡ (true, s')
        → has_session config.session_id (sessions s') ≡ true

  module _ (sessions : S → List String) (keeps : KeepsSessions sessions) where
    abbrev Opened : Outcome Error MachineManager × S → Type 0
    Opened (r, s) =
        (m : MachineManager)
        → r ≡ ok m
        → (has_session config.session_id (sessions s) ≡ true) × (m ≡ manager)

    Opened-accepted :
        (s : S) (r : Bool × S)
        → server.start_session start_request s ≡ r
        → Opened (after (accepted (λ _. r) s) (λ _. pure manager))
    Opened-accepted s (true, s') e = λ m h. (keeps.started s s' e, cc)
    Opened-accepted s (false, s') e = λ m h. cc

    Opened-open_session :
        (b : Bool) (s : S)
        → (b ≡ true → has_session config.session_id (sessions s) ≡ true)
        → Opened (open_session b s)
    unfolding open_session
    Opened-open_session true s h = λ m e. (h refl, cc)
    Opened-open_session false s h = Opened-accepted s (server.start_session start_request s) refl

    Opened-answer :
        (s : S) (r : Option (List String) × S)
        → server.get_status s ≡ r
        → Opened (after (answer (λ _. r) s) (λ l. open_session (has_session config.session_id l)))
    Opened-answer s (none, s') e = λ m h. cc
    Opened-answer s (some l, s') e =
        Opened-open_session (has_session config.session_id l) s'
          (λ h. rw (← keeps.listed s s' l e) h)

    Opened-new : (s : S) → Opened (new_machine_manager s)
    unfolding new_machine_manager
    Opened-new s = go (server.connect config.endpoint s)
      where
        go :
            (r : Bool × S)
            → Opened (
                after (connected r) (λ _.
                  answer server.get_status >>= λ l. open_session (has_session config.session_id l)))
        go (true, s') = Opened-answer s' (server.get_status s') refl
        go (false, s') = λ m h. cc

    -- If the server lists its sessions and keeps those that are started, then, once `new` has
    -- returned, the session of the configuration exists, and the machine manager goes by its
    -- session and its storage directory.
    pub new_machine_manager-has_session :
        (s : S) (m : MachineManager)
        → (new_machine_manager s).0 ≡ ok m
        → (has_session config.session_id (sessions (new_machine_manager s).1) ≡ true)
          × (m.session_id ≡ config.session_id)
          × (m.storage_directory ≡ config.storage_directory)
    new_machine_manager-has_session s m e =
        let (exists, same) = Opened-new s m e in
        (
          exists,
          ap (λ (m : MachineManager). m.session_id) same,
          ap (λ (m : MachineManager). m.storage_directory) same,
        )
