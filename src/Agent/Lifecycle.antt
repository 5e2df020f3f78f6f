-- ===== src/Agent/Lifecycle.antt =====
-- packages/core/src/agent.rs: the agent's shared state, and `dispatch`, `ActiveRequestGuard::drop`,
-- `close`, `destroy` and `wait_for_idle` as tasks that any threads run, one shared access at a time.
pub mod Tokens
pub mod Idle
pub mod Registry
pub mod Progress
pub mod Refusal
pub mod Late
pub mod Waits
pub mod Cause
pub mod Gate
mod Examples
use node_reqwest.Prelude.{
  ℕ, suc, ◌+◌, ◌-◌, ◌%◌, ◌<◌, ◌≡◌, ◌≢◌, Bool, true, false, Option, none, some, List, [], ◌∷◌,
}
use node_reqwest.Prelude.Family.{put}
use Tokens.{TokenMap, insert, remove, drain}
use node_reqwest.Runtime.{Cancellation, Notify}
use node_reqwest.Error.{CoreError, client_destroyed, client_closed}

abbrev pub two_64 : ℕ
two_64 = 18446744073709551616

-- `fetch_add(1)` and `fetch_sub(1)` of a 64-bit atomic, which wrap round.
abbrev pub add_one : ℕ → ℕ
add_one n = (n + 1) % two_64

abbrev pub sub_one : ℕ → ℕ
sub_one n = (n + two_64 - 1) % two_64

module _ (cancellation : Cancellation) (notify : Notify) where
  -- `AgentState`, with the cells that the tokens share; `defaults` never changes and is left out.
  pub record Shared : Type 0 where
    pub next_id : ℕ  -- u64
    pub active_tokens : TokenMap
    pub active_count : ℕ  -- usize
    pub idle_notify : notify.State
    pub closed : Bool
    pub destroyed : Bool
    pub destroy_error : Option CoreError
    pub cells : ℕ → cancellation.Token

  -- The `AgentState` of `Agent::new`.
  unfoldable pub new_state : Shared
  new_state = record {
    next_id = 1;
    active_tokens = [];
    active_count = 0;
    idle_notify = notify.new;
    closed = false;
    destroyed = false;
    destroy_error = none;
    cells = λ _. cancellation.new;
  }

  -- `Agent::is_closed` and `Agent::is_destroyed`
  abbrev pub is_closed : Shared → Bool
  is_closed m = m.closed

  abbrev pub is_destroyed : Shared → Bool
  is_destroyed m = m.destroyed

  -- Where a task stands: before the access that its name tells.
  pub data Task : Type 0 where
    unborn : Task
    check_destroyed check_closed : Task  -- `dispatch`
    refused : CoreError → Task
    make_controller take_id : Task
    add_count insert_token : (id : ℕ) → Task
    in_flight : (id : ℕ) → Task  -- the future holds the guard, polled or not
    remove_token : (id : ℕ) → Task  -- `ActiveRequestGuard::drop`
    sub_count wake_waiters gone : Task
    store_destroyed store_closed : CoreError → Task  -- `destroy`
    store_error : CoreError → Task
    drain_tokens : Task
    cancel_tokens : List ℕ → Task
    begin_close : Task  -- `close`
    load_count enable_notified : Task  -- `wait_for_idle`
    load_again parked : notify.Notified → Task
    returned : Task

  -- One access of task `i`.
  pub data Move (i : ℕ) (m : Shared) : Task → Shared → Task → Type 0 where
    find_destroyed : m.destroyed ≡ true → Move i m check_destroyed m (refused client_destroyed)
    pass_destroyed : m.destroyed ≡ false → Move i m check_destroyed m check_closed
    find_closed : m.closed ≡ true → Move i m check_closed m (refused client_closed)
    pass_closed : m.closed ≡ false → Move i m check_closed m make_controller
    make : Move i m make_controller (record m { cells = put i cancellation.new m.cells }) take_id
    take : Move i m take_id (record m { next_id = add_one m.next_id }) (add_count m.next_id)
    count :
        {id : ℕ}
        → Move i m
            (add_count id)
            (record m { active_count = add_one m.active_count })
            (insert_token id)
    register :
        {id : ℕ}
        → Move i m
            (insert_token id)
            (record m { active_tokens = insert id i m.active_tokens })
            (in_flight id)
    drop_future : {id : ℕ} → Move i m (in_flight id) m (remove_token id)
    unregister :
        {id : ℕ}
        → Move i m
            (remove_token id)
            (record m { active_tokens = remove id m.active_tokens })
            sub_count
    uncount_last :
        m.active_count ≡ 1
        → Move i m sub_count (record m { active_count = sub_one m.active_count }) wake_waiters
    uncount :
        m.active_count ≢ 1
        → Move i m sub_count (record m { active_count = sub_one m.active_count }) gone
    wake :
        Move i m wake_waiters (record m { idle_notify = notify.notify_waiters m.idle_notify }) gone
    set_destroyed :
        {e : CoreError}
        → Move i m (store_destroyed e) (record m { destroyed = true }) (store_closed e)
    set_closed :
        {e : CoreError} → Move i m (store_closed e) (record m { closed = true }) (store_error e)
    set_error :
        {e : CoreError}
        → Move i m (store_error e) (record m { destroy_error = some e }) drain_tokens
    drain_all :
        Move i m drain_tokens
          (record m { active_tokens = [] })
          (cancel_tokens (drain m.active_tokens))
    cancel :
        {t : ℕ} {ts : List ℕ}
        → Move i m
            (cancel_tokens (t ∷ ts))
            (record m { cells = put t (cancellation.cancel (m.cells t)) m.cells })
            (cancel_tokens ts)
    cancelled_all : Move i m (cancel_tokens []) m load_count
    close : Move i m begin_close (record m { closed = true }) load_count
    find_idle : m.active_count ≡ 0 → Move i m load_count m returned
    find_busy : m.active_count ≢ 0 → Move i m load_count m enable_notified
    enable :
        Move i m enable_notified
          (record m { idle_notify = (notify.enable m.idle_notify).0 })
          (load_again (notify.enable m.idle_notify).1)
    still_idle : {w : notify.Notified} → m.active_count ≡ 0 → Move i m (load_again w) m returned
    still_busy : {w : notify.Notified} → m.active_count ≢ 0 → Move i m (load_again w) m (parked w)
    awake :
        {w : notify.Notified}
        → notify.is_ready m.idle_notify w ≡ true
        → Move i m (parked w) m load_count

  -- The entry points: `dispatch`, `close` and `destroy`.
  pub data Entry : Task → Type 0 where
    dispatch : Entry check_destroyed
    closing : Entry begin_close
    destroying : (e : CoreError) → Entry (store_destroyed e)

  -- `spawned` calls have been made so far; a place from there on holds no task.
  pub record System : Type 0 where
    pub shared : Shared
    pub open shared use *
    pub tasks : ℕ → Task
    pub spawned : ℕ

  -- `dispatch` has returned its controller to the caller.
  abbrev pub IsHandedOut : Task → Type 0
  IsHandedOut (Task.in_flight _) = Unit
  IsHandedOut (Task.remove_token _) = Unit
  IsHandedOut Task.sub_count = Unit
  IsHandedOut Task.wake_waiters = Unit
  IsHandedOut Task.gone = Unit
  IsHandedOut _ = ⊥

  -- The caller's `abort` cancels the token that the request shares with its controller.
  abbrev pub aborted : ℕ → Shared → Shared
  aborted i m = record m { cells = put i (cancellation.cancel (m.cells i)) m.cells }

  -- A call is made, some task makes an access, or a caller aborts its request. Memory bounds the
  -- calls far below 2^64.
  pub data Step (s : System) : System → Type 0 where
    enter :
        {t : Task}
        → Entry t
        → s.spawned + 3 < two_64
        → Step s (record s { tasks = put s.spawned t s.tasks; spawned = suc s.spawned })
    run :
        (i : ℕ) {m : Shared} {t : Task}
        → i < s.spawned
        → Move i s.shared (s.tasks i) m t
        → Step s (record s { shared = m; tasks = put i t s.tasks })
    abort : (i : ℕ) → IsHandedOut (s.tasks i) → Step s (record s { shared = aborted i s.shared })

  unfoldable pub fresh : System
  unfolding new_state
  fresh = record { shared = new_state; tasks = λ _. unborn; spawned = 0 }

  pub data Reach : System → Type 0 where
    start : Reach fresh
    later : {s t : System} → Reach s → Step s t → Reach t
