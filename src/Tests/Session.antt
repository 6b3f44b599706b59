-- ===== src/Tests/Session.antt =====
-- A server whose state is the list of its sessions.
use descartes_v.Base.{ℕ, ◌≡◌, refl, String, Bool, true, Option, some, List, [], ◌∷◌}
use mathlib.Core.Path.{subst}
use descartes_v.Machine.RollupMm.{MachineManager}
use descartes_v.Machine.RollupMm.Session.{
  Config, Server, KeepsSessions, has_session, open_session, new_machine_manager,
  new_machine_manager-has_session,
}

abbrev server : Server ℕ ℕ ℕ ℕ (List String)
server = record {
  connect = λ _ sessions. (true, sessions);
  get_status = λ sessions. (some sessions, sessions);
  start_session = λ request sessions. (true, request.session_id ∷ sessions);
}

abbrev config : Config ℕ ℕ ℕ ℕ
config = record {
  endpoint = "localhost";
  session_id = "rollup";
  storage_directory = "storage";
  machine = 0;
  max_cycles_per_input = 1000;
  cycles_per_input_chunk = 100;
  input_description = 0;
  outputs_description = 0;
  messages_description = 0;
  server_deadline = 0;
}

abbrev sessions_of : List String → List String
sessions_of sessions = sessions

server-KeepsSessions : KeepsSessions server config sessions_of
unfolding has_session
server-KeepsSessions = record {
  listed = λ s s' l e. listed_of s s' l e;
  started =
      λ s s' e. subst (λ (l : List String). has_session "rollup" l ≡ true) (started_of s s' e) refl;
}
  where
    listed_of :
        (s s' l : List String)
        → ◌≡◌ {A = Option (List String) × List String} (some s, s) (some l, s')
        → l ≡ s'
    listed_of s s' l e = cc

    started_of :
        (s s' : List String)
        → ◌≡◌ {A = Bool × List String} (true, "rollup" ∷ s) (true, s')
        → "rollup" ∷ s ≡ s'
    started_of s s' e = cc

abbrev opened : MachineManager
opened = record { session_id = "rollup"; storage_directory = "storage" }

-- The session does not exist yet.
new_machine_manager-has_session_example :
    (has_session "rollup" (sessions_of (new_machine_manager server config ("other" ∷ [])).1) ≡ true)
    × (opened.session_id ≡ "rollup")
    × (opened.storage_directory ≡ "storage")
unfolding new_machine_manager open_session has_session
new_machine_manager-has_session_example =
    new_machine_manager-has_session server config sessions_of server-KeepsSessions ("other" ∷ [])
      opened refl
