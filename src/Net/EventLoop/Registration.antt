-- ===== src/Net/EventLoop/Registration.antt =====
-- net/event_loop.cpp and net/channel.cpp: which descriptors the epoll instance watches.
use my_net_core_proxy.Prelude.{
  ℕ, ◌≡◌, refl, ◌∙◌, ap, subst, inl, inr, ◌≢◌, none, some, List, [], ◌∷◌, Result, ok, fault, ◌>>=◌,
  arith, Option-cases,
}
use my_net_core_proxy.Net.Channel.{Channel, negsuc, set_index}
use my_net_core_proxy.Net.EventLoop.{Epoll, EventLoop, add, modify, update_channel, remove_channel}
use my_net_core_proxy.Net.EventLoop.Watch.{
  Watch, update, enable_reading, disable_reading, enable_writing, disable_writing, disable_all,
  remove,
}

-- The calls that change a channel's registration.
pub data Call : Type 0 where
  enables_reading disables_reading enables_writing disables_writing disables_all removes : Call

module _ (kernel : Epoll) {T : Type 0} where
  open kernel use {State, interest, ctl}

  update_absent :
      (l : EventLoop State T) (channel : Channel)
      → interest l.epoll channel.fd ≡ none
      → update_channel kernel l channel
        ≡ record l { epoll = (ctl l.epoll add channel.fd channel.events).0 }
  unfolding update_channel
  update_absent l channel e =
      rw (kernel.add_absent l.epoll channel.fd channel.events e, update_channel) refl

  update_present :
      (l : EventLoop State T) (channel : Channel) (old : ℕ)
      → interest l.epoll channel.fd ≡ some old
      → update_channel kernel l channel
        ≡ record l { epoll = (ctl l.epoll modify channel.fd channel.events).0 }
  unfolding update_channel
  update_present l channel old e =
      rw (kernel.add_present l.epoll channel.fd channel.events old e, update_channel)
        (ap (λ k. record l { epoll = (ctl k.0 modify channel.fd channel.events).0 })
          (kernel.add_present l.epoll channel.fd channel.events old e))

  -- After updateChannel the epoll instance watches the channel's descriptor for the channel's
  -- mask, whether it was watched before or not, every other descriptor is watched as before, and
  -- the loop's other fields are unchanged.
  pub update_channel_lem :
      (l : EventLoop State T) (channel : Channel)
      → (interest (update_channel kernel l channel).epoll channel.fd ≡ some channel.events)
        × ((other : ℕ)
            → channel.fd ≢ other
            → interest (update_channel kernel l channel).epoll other ≡ interest l.epoll other)
        × (update_channel kernel l channel
            ≡ record l { epoll = (update_channel kernel l channel).epoll })
  update_channel_lem l channel = elim (Option-cases (interest l.epoll channel.fd)) [
    | inl e ↦ rw (update_absent l channel e) (
      kernel.add_absent_interest l.epoll channel.fd channel.events e,
      kernel.ctl_other l.epoll add channel.fd channel.events,
      refl,
    )
    | inr (old, e) ↦ rw (update_present l channel old e) (
      kernel.modify_present l.epoll channel.fd channel.events old e,
      kernel.ctl_other l.epoll modify channel.fd channel.events,
      refl,
    )
  ]

  unfoldable pub step : Watch State T → Call → Result (Watch State T)
  step w enables_reading = ok (enable_reading kernel w)
  step w disables_reading = ok (disable_reading kernel w)
  step w enables_writing = ok (enable_writing kernel w)
  step w disables_writing = ok (disable_writing kernel w)
  step w disables_all = ok (disable_all kernel w)
  step w removes = remove kernel w

  unfoldable pub run : Watch State T → List Call → Result (Watch State T)
  run w [] = ok w
  run w (c ∷ cs) = do w' ← step w c; run w' cs

  -- Watched by epoll, with the index that the constructor sets.
  pub record Registered (w : Watch State T) (fd : ℕ) : Type 0 where
    pub same_fd : w.channel.fd ≡ fd
    pub no_index : w.channel.index ≡ negsuc 0
    pub watched : (events : ℕ) × (interest w.loop.epoll fd ≡ some events)

  update-Registered :
      (w : Watch State T) (fd : ℕ) (channel' : Channel)
      → channel'.fd ≡ fd
      → channel'.index ≡ negsuc 0
      → Registered (update kernel w channel') fd
  unfolding update
  update-Registered w fd channel' e i = record {
    same_fd = e;
    no_index = i;
    watched = (
      channel'.events,
      subst (λ k. interest (update_channel kernel w.loop channel').epoll k ≡ some channel'.events) e
          (update_channel_lem w.loop channel').0,
    );
  }

  remove_lem :
      (w w' : Watch State T)
      → w.channel.index ≡ negsuc 0
      → remove kernel w ≡ ok w'
      → (w'.loop.epoll ≡ w.loop.epoll)
        × (w'.channel.fd ≡ w.channel.fd)
        × (w'.channel.index ≡ negsuc 0)
  unfolding remove remove_channel set_index
  remove_lem w w' i e = ground arith

  remove-Registered :
      (w w' : Watch State T) (fd : ℕ) → Registered w fd → remove kernel w ≡ ok w' → Registered w' fd
  remove-Registered w w' fd r e =
      let (same, fd', index') = remove_lem w w' r.no_index e in
      let (events, watched) = r.watched in
      record {
        same_fd = fd' ∙ r.same_fd;
        no_index = index';
        watched = (events, ap (λ s. interest s fd) same ∙ watched);
      }

  after_ok :
      (v w' : Watch State T) (fd : ℕ)
      → Registered v fd
      → ◌≡◌ {A = Result (Watch State T)} (ok v) (ok w')
      → Registered w' fd
  after_ok v w' fd r e = subst (λ u. Registered u fd) (cc) r

  step-Registered :
      (w w' : Watch State T) (fd : ℕ) (c : Call)
      → Registered w fd
      → step w c ≡ ok w'
      → Registered w' fd
  unfolding step enable_reading disable_reading enable_writing disable_writing disable_all
  step-Registered w w' fd enables_reading r e =
      after_ok _ w' fd (update-Registered w fd _ r.same_fd r.no_index) e
  step-Registered w w' fd disables_reading r e =
      after_ok _ w' fd (update-Registered w fd _ r.same_fd r.no_index) e
  step-Registered w w' fd enables_writing r e =
      after_ok _ w' fd (update-Registered w fd _ r.same_fd r.no_index) e
  step-Registered w w' fd disables_writing r e =
      after_ok _ w' fd (update-Registered w fd _ r.same_fd r.no_index) e
  step-Registered w w' fd disables_all r e =
      after_ok _ w' fd (update-Registered w fd _ r.same_fd r.no_index) e
  step-Registered w w' fd removes r e = remove-Registered w w' fd r e

  -- Once a channel is watched by epoll and its index is -1, no sequence of enabling, disabling
  -- and remove() that passes its assertions ends the watch on its descriptor or changes that
  -- index.
  pub run-Registered :
      (w w' : Watch State T) (fd : ℕ) (cs : List Call)
      → Registered w fd
      → run w cs ≡ ok w'
      → Registered w' fd
  unfolding run
  run-Registered w w' fd [] r e = after_ok w w' fd r e
  run-Registered w w' fd (c ∷ cs) r e =
      by_step (step w c) refl e (λ v h k. run-Registered v w' fd cs h k)
    where
      by_step :
          (out : Result (Watch State T))
          → step w c ≡ out
          → (out >>= λ v. run v cs) ≡ ok w'
          → ((v : Watch State T) → Registered v fd → run v cs ≡ ok w' → Registered w' fd)
          → Registered w' fd
      by_step (ok v) h k rest = rest v (step-Registered w v fd c r h) k
      by_step (fault f) h k rest = cc
