-- ===== src/Net/EventLoop.antt =====
-- net/event_loop.h and net/event_loop.cpp: the loop of one thread, its epoll set and its queue of
-- tasks. The kernel's `epoll_ctl` is a parameter, with its documented answers as laws.
pub mod Watch
pub mod Registration
pub mod Rounds
pub mod Table
pub mod Timing
pub mod Creation
pub mod Threads
mod Tests
use my_net_core_proxy.Prelude.{
  ℕ, suc, ◌+◌, ◌≡◌, ◌≢◌, Bool, true, false, not, ◌&&◌, ◌||◌, ◌==◌, if◌then◌else◌, Option, none,
  some, List, [], ◌∷◌, ◌++◌, Result, ok, fault, check, assertion, ◌>>=◌, ◌>>◌,
}
use my_net_core_proxy.Net.Channel.{Channel, ℤ, pos, negsuc, set_index}

pub data CtlOp : Type 0 where
  add modify delete : CtlOp

abbrev pub eexist : ℕ
eexist = 17

-- An epoll instance: which events it watches on a descriptor, and `epoll_ctl`, which answers with
-- the instance after it and the `errno` of a failure.
pub record Epoll : Type 1 where
  pub State : Type 0
  pub interest : State → ℕ → Option ℕ
  pub ctl : State → CtlOp → ℕ → ℕ → State × Option ℕ
  pub add_present :
      (s : State) (fd events old : ℕ)
      → interest s fd ≡ some old
      → ctl s add fd events ≡ (s, some eexist)
  pub add_absent :
      (s : State) (fd events : ℕ) → interest s fd ≡ none → (ctl s add fd events).1 ≡ none
  pub add_absent_interest :
      (s : State) (fd events : ℕ)
      → interest s fd ≡ none
      → interest (ctl s add fd events).0 fd ≡ some events
  pub modify_present :
      (s : State) (fd events old : ℕ)
      → interest s fd ≡ some old
      → interest (ctl s modify fd events).0 fd ≡ some events
  pub ctl_other :
      (s : State) (op : CtlOp) (fd events other : ℕ)
      → fd ≢ other
      → interest (ctl s op fd events).0 other ≡ interest s other

-- The fields of the loop that its methods use; `T` is what `std::function<void()>` stands for.
-- `wakeups` is the counter of the event descriptor.
pub record EventLoop (State T : Type 0) : Type 0 where
  pub epoll : State
  pub looping : Bool
  pub quitting : Bool
  pub in_loop_thread : Bool
  pub calling_pending_functors : Bool
  pub pending_functors : List T
  pub wakeups : ℕ

module _ {State T : Type 0} where
  unfoldable pub wakeup : EventLoop State T → EventLoop State T
  wakeup l = record l { wakeups = l.wakeups + 1 }

  -- A read of the event descriptor takes its counter back to 0.
  unfoldable pub handle_wakeup : EventLoop State T → EventLoop State T
  handle_wakeup l = record l { wakeups = 0 }

  -- `quit_ = true`
  abbrev pub set_quit : EventLoop State T → EventLoop State T
  set_quit l = record l { quitting = true }

  unfoldable pub quit : EventLoop State T → EventLoop State T
  unfolding wakeup
  quit l = if not l.in_loop_thread then wakeup (set_quit l) else set_quit l

  -- `runInLoop(cb)` for a task whose direct call is `now`, on a state `S` that holds the loop.
  unfoldable pub runs_now : EventLoop State T → Bool
  runs_now l = l.in_loop_thread && not l.calling_pending_functors

  -- The block under the lock.
  abbrev pub push : EventLoop State T → T → EventLoop State T
  push l task = record l { pending_functors = l.pending_functors ++ task ∷ [] }

  unfoldable pub enqueue : EventLoop State T → T → EventLoop State T
  unfolding wakeup
  enqueue l task = wakeup (push l task)

-- `index == -1`
unfoldable pub is_minus_one : ℤ → Bool
is_minus_one (pos n) = false
is_minus_one (negsuc n) = n == 0

module _ (kernel : Epoll) {T : Type 0} where
  open kernel use {State, interest, ctl}

  -- `updateChannel`: add the descriptor, or modify its entry if it is there.
  unfoldable pub update_channel : EventLoop State T → Channel → EventLoop State T
  update_channel l channel =
      let (added, failure) = ctl l.epoll add channel.fd channel.events in
      elim failure [
        | none ↦ record l { epoll = added }
        | some errno ↦
            if errno == eexist
            then record l { epoll = (ctl added modify channel.fd channel.events).0 }
            else record l { epoll = added }
      ]

  -- `removeChannel`. The channel's owner is this loop.
  unfoldable pub remove_channel : EventLoop State T → Channel → Result (EventLoop State T × Channel)
  unfolding is_minus_one
  remove_channel l channel = do
    check (not l.looping || l.in_loop_thread) assertion
    let epoll' =
        if l.looping && not (is_minus_one channel.index)
        then (ctl l.epoll delete channel.fd 0).0
        else l.epoll
    ok (record l { epoll = epoll' }, set_index channel (negsuc 0))
