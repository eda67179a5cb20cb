-- ===== src/World.antt =====
-- include/hawkbit-client.h: the client's data; and the state that its threads share, with what they
-- have done to the outside. The outside itself (`E`: network, server, files, clock) is abstract.
pub mod Quiet
pub mod Runs
pub mod Sends
pub mod Moves
pub mod Asserts
use rauc_hawkbit_updater.Base.{
  ℕ, String, Bool, true, false, Option, none, some, List, [], ◌∷◌, ℤ, if◌then◌else◌, ◌==◌,
}
use rauc_hawkbit_updater.Exec.{Outcome, Exec, stop, self_deadlock, modify}

pub data HttpMethod : Type 0 where
  get_method head_method put_method post_method patch_method delete_method : HttpMethod

pub data ActionState : Type 0 where
  state_none canceled error success processing downloading installing cancel_requested : ActionState

-- The number of an enumerator, which `>=` in `process_deployment` compares.
abbrev pub state_number : ActionState → ℕ
state_number state_none = 0
state_number canceled = 1
state_number error = 2
state_number success = 3
state_number processing = 4
state_number downloading = 5
state_number installing = 6
state_number cancel_requested = 7

-- ==
abbrev pub state_eq : ActionState → ActionState → Bool
state_eq a b = state_number a == state_number b

-- struct HawkbitAction, without the mutex and the condition
pub record HawkbitAction : Type 0 where
  pub id : Option String
  pub state : ActionState

pub record Artifact : Type 0 where
  pub name : String
  pub version : String
  pub size : ℤ
  pub download_url : String
  pub feedback_url : String
  pub sha1 : String
  pub maintenance_window : Option String
  pub do_install : Bool

-- struct on_new_software_userdata, without the two callbacks, which never vary
pub record UserData : Type 0 where
  pub file : String
  pub auth_header : Option String
  pub ssl_verify : Bool

-- The calls that json_build_status makes of json-glib's builder.
pub data BuilderCall : Type 0 where
  begin_object end_object begin_array end_array : BuilderCall
  set_member_name add_string_value : String → BuilderCall

-- The options that are set on a curl handle for a REST request.
pub record Request : Type 0 where
  pub method : HttpMethod
  pub url : String
  pub body : Option (List BuilderCall)
  pub headers : List String
  pub user_agent : String
  pub connect_timeout : ℤ
  pub verify : Bool
  pub timeout : ℤ

-- The options that are set on a curl handle for a download.
pub record Transfer : Type 0 where
  pub url : String
  pub file : String
  pub resume_from : ℕ
  pub headers : List String
  pub user_agent : String
  pub connect_timeout : ℤ
  pub verify : Bool
  pub low_speed_time : ℤ
  pub low_speed_rate : ℤ

-- What a thread has done to the outside, or to another thread.
pub data Event : Type 0 where
  requested : Request → Event
  transferred : Transfer → Event
  slept : ℕ → Event
  removed : String → Event
  signalled : Event
  software_ready : UserData → Event
  download_joined : Event
  download_started : Artifact → Event
  install_joined : Event
  install_started : UserData → Event
  bundle_installed : String → Option String → Option Bool → Event
  synced rebooted loop_quit : Event

-- `trace` has the newest event first; `locked` is active_action->mutex.
pub record World (E : Type 0) : Type 0 where
  pub env : E
  pub locked : Bool
  pub action : HawkbitAction
  pub thread_download : Bool
  pub thread_install : Bool
  pub trace : List Event

module _ {E : Type 0} where
  -- A call into a library or the system.
  unfoldable pub call : {A : Type 0} → (E → A × E) → Exec (World E) A
  call f w = let (a, e) = f w.env in (Outcome.done a, record w { env = e })

  unfoldable pub emit : Event → Exec (World E) (Unit {0})
  emit v = modify (λ w. record w { trace = v ∷ w.trace })

  unfoldable pub set_state : ActionState → Exec (World E) (Unit {0})
  set_state s = modify (λ w. record w { action = record w.action { state = s } })

  unfoldable pub set_id : Option String → Exec (World E) (Unit {0})
  set_id i = modify (λ w. record w { action = record w.action { id = i } })

  unfoldable pub unlock : Exec (World E) (Unit {0})
  unlock = modify (λ w. record w { locked = false })

  -- A GMutex is not recursive. Opening this opens the other actions on a state too.
  unfoldable pub lock : Exec (World E) (Unit {0})
  unfolding call emit set_state set_id unlock stop modify
  lock w = if w.locked then stop self_deadlock w else (Outcome.done tt, record w { locked = true })
