-- ===== src/Runtime.antt =====
-- What the crates use of tokio and tokio-util: parameters of the model, with documented behaviour.
use Prim.Native.Nat.{ℕ, suc}
use node_reqwest.Prelude.{ltb, Bool, true, false, ◌≡◌, refl, arith}

-- `tokio::sync::watch` at `bool`: a channel whose receiver is kept, so `send` stores its value.
pub record Watch : Type 1 where
  pub Channel : Type 0
  pub channel : Bool → Channel
  pub send : Bool → Channel → Channel
  pub borrow : Channel → Bool
  pub borrow-channel : (b : Bool) → borrow (channel b) ≡ b
  pub borrow-send : (b : Bool) (c : Channel) → borrow (send b c) ≡ b

-- `tokio_util::sync::CancellationToken`: the state that all clones of one token share.
pub record Cancellation : Type 1 where
  pub Token : Type 0
  pub new : Token
  pub cancel : Token → Token
  pub is_cancelled : Token → Bool
  pub is_cancelled-new : is_cancelled new ≡ false
  pub is_cancelled-cancel : (t : Token) → is_cancelled (cancel t) ≡ true

-- `tokio::sync::Notify`, as far as a `Notified` future that was enabled before it is awaited goes:
-- `notify_waiters` makes each of those ready, and ready it stays.
pub record Notify : Type 1 where
  pub State : Type 0
  pub Notified : Type 0
  pub new : State
  pub enable : State → State × Notified  -- `notified()` and `enable()`
  pub notify_waiters : State → State
  pub is_enabled : State → Notified → Bool
  pub is_ready : State → Notified → Bool
  pub is_enabled-enabled : (n : State) → is_enabled (enable n).0 (enable n).1 ≡ true
  pub is_enabled-enable :
      (n : State) (w : Notified) → is_enabled n w ≡ true → is_enabled (enable n).0 w ≡ true
  pub is_enabled-notify_waiters :
      (n : State) (w : Notified) → is_enabled n w ≡ true → is_enabled (notify_waiters n) w ≡ true
  pub is_ready-enable :
      (n : State) (w : Notified) → is_ready n w ≡ true → is_ready (enable n).0 w ≡ true
  pub is_ready-notify_waiters :
      (n : State) (w : Notified) → is_enabled n w ≡ true → is_ready (notify_waiters n) w ≡ true

abbrev pub plain_watch : Watch
plain_watch = record {
  Channel = Bool;
  channel = λ b. b;
  send = λ b _. b;
  borrow = λ b. b;
  borrow-channel = λ b. refl;
  borrow-send = λ b c. refl;
}

abbrev pub plain_cancellation : Cancellation
plain_cancellation = record {
  Token = Bool;
  new = false;
  cancel = λ _. true;
  is_cancelled = λ b. b;
  is_cancelled-new = refl;
  is_cancelled-cancel = λ t. refl;
}

pub ltb_self : (n : ℕ) → ltb n (suc n) ≡ true
ltb_self n = ground arith

pub ltb-suc : (w n : ℕ) → ltb w n ≡ true → ltb w (suc n) ≡ true
ltb-suc w n h = ground arith

-- Futures in the order of their creation, and how many of them have been notified.
abbrev pub plain_notify : Notify
plain_notify = record {
  State = ℕ × ℕ;
  Notified = ℕ;
  new = (0, 0);
  enable = λ n. ((suc n.0, n.1), n.0);
  notify_waiters = λ n. (n.0, n.0);
  is_enabled = λ n w. ltb w n.0;
  is_ready = λ n w. ltb w n.1;
  is_enabled-enabled = λ n. ltb_self n.0;
  is_enabled-enable = λ n w h. ltb-suc w n.0 h;
  is_enabled-notify_waiters = λ n w h. h;
  is_ready-enable = λ n w h. h;
  is_ready-notify_waiters = λ n w h. h;
}
