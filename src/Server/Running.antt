-- ===== src/Server/Running.antt =====
-- The constructors of class Server, loadNodeset, and run in one thread and stop in another
-- (modernopc/src/Server.cpp), as interleaved steps. UA_Server_run, by its documentation, starts up,
-- iterates as long as the flag whose address it is given is true, and shuts down.
pub mod Laws
pub mod Tests
use modern_opc.Server.Status.{UaStatusCode}
use modern_opc.Base.{Bytes, ℕ, zero, suc, ◌≡◌, Bool, true, false, List, [], ◌∷◌}
use modern_opc.Server.Nodes.{Server}

-- The calls of open62541.
pub record UaRun (S : Type 0) : Type 0 where
  pub startup : S → S
  pub iterate : S → S
  pub shutdown : S → S

-- UA_Server_new, UA_ServerConfig_setMinimal, and NodesetLoader_loadFile of the nodeset loader.
pub record UaStart (S : Type 0) : Type 0 where
  pub new_server : S
  pub set_minimal : S → ℕ → UaStatusCode × S
  pub load_file : S → Bytes → Bool × S

-- Server::create and the members' initialisers: a status that is not GOOD is only logged.
unfoldable pub create : {S : Type 0} → UaStart S → ℕ → Server S
create B port = record {
  ua = (B.set_minimal B.new_server port).1;
  is_running = false;
  objects = [];
  methods = [];
  variables = [];
  next = 0;
}

-- Server::Server()
unfoldable pub construct_server : {S : Type 0} → UaStart S → Server S
unfolding create
construct_server B = create B 4840

-- Server::loadNodeset
unfoldable pub load_nodeset : {S : Type 0} → UaStart S → Bytes → Server S → Bool × Server S
load_nodeset B path s = let (loaded, ua) = B.load_file s.ua path in (loaded, record s { ua = ua })

-- Where the thread of run is: before the call, before a read of the flag, in an iteration, or back.
pub data Runner : Type 0 where
  before_run at_flag in_iteration back : Runner

-- Where the thread of stop is: before the call, before UA_Server_run_shutdown, or back.
pub data Stopper : Type 0 where
  before_stop flag_cleared stopped : Stopper

pub record System (S : Type 0) : Type 0 where
  pub server : Server S
  pub runner : Runner
  pub stopper : Stopper

pub data Thread : Type 0 where
  of_run of_stop : Thread

module _ {S : Type 0} (R : UaRun S) where
  -- isRunning = true; and the start of UA_Server_run
  unfoldable pub begin_run : Server S → Server S
  begin_run s = record s { is_running = true; ua = R.startup s.ua }

  -- isRunning = false;
  unfoldable pub clear_flag : Server S → Server S
  clear_flag s = record s { is_running = false }

  -- UA_Server_run_shutdown(server)
  unfoldable pub shut_down : Server S → Server S
  shut_down s = record s { ua = R.shutdown s.ua }

  -- Server::stop, in one piece
  unfoldable pub stop : Server S → Server S
  unfolding clear_flag shut_down
  stop s = shut_down (clear_flag s)

  pub data Step : Thread → System S → System S → Type 0 where
    begins :
        {s : Server S}
        → {p : Stopper}
        → Step of_run
            (record { server = s; runner = before_run; stopper = p })
            (record { server = begin_run s; runner = at_flag; stopper = p })
    goes_on :
        {s : Server S}
        → {p : Stopper} → s.is_running ≡ true
        → Step of_run
            (record { server = s; runner = at_flag; stopper = p })
            (record { server = s; runner = in_iteration; stopper = p })
    iterates :
        {s : Server S}
        → {p : Stopper}
        → Step of_run
            (record { server = s; runner = in_iteration; stopper = p })
            (record { server = record s { ua = R.iterate s.ua }; runner = at_flag; stopper = p })
    returns :
        {s : Server S}
        → {p : Stopper} → s.is_running ≡ false
        → Step of_run
            (record { server = s; runner = at_flag; stopper = p })
            (record { server = shut_down s; runner = back; stopper = p })
    clears :
        {s : Server S}
        → {r : Runner}
        → Step of_stop
            (record { server = s; runner = r; stopper = before_stop })
            (record { server = clear_flag s; runner = r; stopper = flag_cleared })
    shuts_down :
        {s : Server S}
        → {r : Runner}
        → Step of_stop
            (record { server = s; runner = r; stopper = flag_cleared })
            (record { server = shut_down s; runner = r; stopper = stopped })

  -- A run of both threads, in any order of their steps.
  pub data Run : List Thread → System S → System S → Type 0 where
    done : {s : System S} → Run [] s s
    next :
        {t : Thread}
        → {ts : List Thread} → {s m e : System S} → Step t s m
        → Run ts m e
        → Run (t ∷ ts) s e
