-- ===== src/Net/EventLoop/Table.antt =====
-- net/event_loop.cpp: an epoll instance as a table, for runs of the loop at concrete inputs.
use my_net_core_proxy.Prelude.{ℕ, ◌≡◌, ◌≢◌, refl, ◌==◌, if◌then◌else◌, Option, none, some, arith}
use my_net_core_proxy.Net.EventLoop.{Epoll, CtlOp, add, modify, delete, eexist}

unfoldable pub set : (ℕ → Option ℕ) → ℕ → Option ℕ → ℕ → Option ℕ
set table fd entry other = if fd == other then entry else table other

set_same : (table : ℕ → Option ℕ) (fd : ℕ) (entry : Option ℕ) → set table fd entry fd ≡ entry
unfolding set
set_same table fd entry = ground arith

set_other :
    (table : ℕ → Option ℕ) (fd other : ℕ) (entry : Option ℕ)
    → fd ≢ other
    → set table fd entry other ≡ table other
unfolding set
set_other table fd other entry h = ground arith

-- `ENOENT`
abbrev enoent : ℕ
enoent = 2

unfoldable pub ctl_entry : Option ℕ → (ℕ → Option ℕ) → CtlOp → ℕ → ℕ → (ℕ → Option ℕ) × Option ℕ
ctl_entry none table add fd events = (set table fd (some events), none)
ctl_entry none table modify fd events = (table, some enoent)
ctl_entry none table delete fd events = (table, some enoent)
ctl_entry (some old) table add fd events = (table, some eexist)
ctl_entry (some old) table modify fd events = (set table fd (some events), none)
ctl_entry (some old) table delete fd events = (set table fd none, none)

ctl_entry_other :
    (entry : Option ℕ) (table : ℕ → Option ℕ) (op : CtlOp) (fd events other : ℕ)
    → fd ≢ other
    → (ctl_entry entry table op fd events).0 other ≡ table other
unfolding ctl_entry
ctl_entry_other none table add fd events other h = set_other table fd other (some events) h
ctl_entry_other none table modify fd events other h = refl
ctl_entry_other none table delete fd events other h = refl
ctl_entry_other (some old) table add fd events other h = refl
ctl_entry_other (some old) table modify fd events other h = set_other table fd other (some events) h
ctl_entry_other (some old) table delete fd events other h = set_other table fd other none h

abbrev pub State : Type 0
State = ℕ → Option ℕ

unfoldable pub ctl : State → CtlOp → ℕ → ℕ → State × Option ℕ
unfolding ctl_entry set
ctl s op fd events = ctl_entry (s fd) s op fd events

pub ctl-add_present :
    (s : State) (fd events old : ℕ) → s fd ≡ some old → ctl s add fd events ≡ (s, some eexist)
unfolding ctl ctl_entry
ctl-add_present s fd events old e = rw e refl

pub ctl-add_absent : (s : State) (fd events : ℕ) → s fd ≡ none → (ctl s add fd events).1 ≡ none
unfolding ctl ctl_entry
ctl-add_absent s fd events e = rw e refl

pub ctl-add_interest :
    (s : State) (fd events : ℕ) → s fd ≡ none → (ctl s add fd events).0 fd ≡ some events
unfolding ctl ctl_entry
ctl-add_interest s fd events e = rw e (set_same s fd (some events))

pub ctl-modify_interest :
    (s : State) (fd events old : ℕ) → s fd ≡ some old → (ctl s modify fd events).0 fd ≡ some events
unfolding ctl ctl_entry
ctl-modify_interest s fd events old e = rw e (set_same s fd (some events))

pub ctl-other :
    (s : State) (op : CtlOp) (fd events other : ℕ)
    → fd ≢ other
    → (ctl s op fd events).0 other ≡ s other
unfolding ctl
ctl-other s op fd events other h = ctl_entry_other (s fd) s op fd events other h

abbrev pub table : Epoll
table = record {
  State = State;
  interest = λ s fd. s fd;
  ctl = ctl;
  add_present = ctl-add_present;
  add_absent = ctl-add_absent;
  add_absent_interest = ctl-add_interest;
  modify_present = ctl-modify_interest;
  ctl_other = ctl-other;
}

-- Nothing is watched.
abbrev pub nothing : State
nothing fd = none
