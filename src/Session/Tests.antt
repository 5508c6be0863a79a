-- ===== src/Session/Tests.antt =====
-- Runs of the theorems on a session with all kinds of holders.
use libhinawa.Env.{overrun}
use libhinawa.Base.{
  ℕ, ◌≡◌, inl, inr, ◌+◌, ◌<◌, ◌==◌, true, Bool-cases, refl, List, [], ◌∷◌, none, some, arith,
}
use libhinawa.Enums.{Tcode}
use libhinawa.Env.{Env, Effect, ioctl, opened, closed, ref, unref, done, empty}
use libhinawa.Samples.{granting, world_sample}
use libhinawa.Session
use libhinawa.Session.{
  Call, on, new_node, opening, updating, new_responder, new_protocol, beginning, collecting,
  reserving, releasing, binding, returning, finalizing, begin, collect, on_holder, on_protocol,
  on_responder, step, run,
}
use libhinawa.Session.Classes.{Holds}
use libhinawa.Session.Files.{is_open, OpenLaw, Files}
use libhinawa.Session.Opening.{run-Files}
use libhinawa.Session.Balance.{IsAccounted, run-IsAccounted}

-- A session without objects but the nodes at 1 and 2.
abbrev at_start : Session.Session
at_start = record { world = world_sample; holders = []; waiters = λ p. none }

-- A protocol that is bound and a transaction that waits hold the node while it is to be collected;
-- then all of them end, and it is collected.
abbrev calls : List Call
calls =
    new_protocol
    ∷ new_responder
    ∷ on 0 (binding 1 empty)
    ∷ on 1 (reserving (some 1) 0x1000 0x1008 8 empty)
    ∷ beginning 30 (some 1) Tcode.read_quadlet_request 0x100 4 (0 ∷ 0 ∷ 0 ∷ 0 ∷ []) 4 empty
    ∷ on 1 releasing
    ∷ collecting 1
    ∷ on 2 (returning [] [] (0 ∷ 0 ∷ 0 ∷ 0 ∷ []) 4 empty)
    ∷ on 1 finalizing
    ∷ on 0 finalizing
    ∷ collecting 1
    ∷ []

run-IsAccounted_example : Holds (IsAccounted 1) (run granting at_start calls)
run-IsAccounted_example = run-IsAccounted granting 1 at_start calls ((omega arith, tt), inl refl)

-- A kernel that grants each request and numbers the files that it opens.
abbrev opens : List Effect → ℕ
opens [] = 0
opens (opened path flag ∷ es) = opens es + 1
opens (closed fd ∷ es) = opens es
opens (ioctl fd r args ∷ es) = opens es
opens (ref q ∷ es) = opens es
opens (unref q ∷ es) = opens es
opens (overrun ∷ es) = opens es

abbrev numbering : Env
numbering = record granting { open_file = λ es path flag. done (opens es) }

is_open-opens : (es : List Effect) (fd : ℕ) → is_open numbering es fd ≡ true → fd < opens es
is_open-opens [] fd h = absurd (ground arith)
is_open-opens (opened path flag ∷ es) fd h = elim (Bool-cases (opens es == fd)) [
  | inl same ↦ ground arith
  | inr other ↦ ground (arith, is_open-opens es fd)
]
is_open-opens (closed fd' ∷ es) fd h = ground (arith, is_open-opens es fd)
is_open-opens (ioctl fd' r args ∷ es) fd h = is_open-opens es fd h
is_open-opens (ref q ∷ es) fd h = is_open-opens es fd h
is_open-opens (unref q ∷ es) fd h = is_open-opens es fd h
is_open-opens (overrun ∷ es) fd h = is_open-opens es fd h

numbering-OpenLaw : OpenLaw numbering
numbering-OpenLaw es path flag fd h = elim (Bool-cases (is_open numbering es fd)) [
  | inl open_now ↦ absurd (ground (arith, is_open-opens es fd open_now))
  | inr shut ↦ shut
]

-- A process that has not asked for anything, and two nodes that it opens.
abbrev bare : Session.Session
bare = record {
  world = record { nodes = λ p. none; trace = [] };
  holders = [];
  waiters = λ p. none;
}

abbrev openings : List Call
openings =
    new_node 1
    ∷ new_node 2
    ∷ opening 1 (some (47 ∷ [])) 0 empty
    ∷ opening 2 (some (48 ∷ [])) 0 empty
    ∷ updating 1
    ∷ collecting 1
    ∷ []

bare-Files : Files numbering bare.world
bare-Files = record {
  owned = λ p fd e. absurd (ground arith);
  sole = λ p q fd e e'. absurd (ground arith);
  kept = λ fd e. absurd (ground arith);
  used = tt;
}

run-Files_example : Holds (λ s. Files numbering s.world) (run numbering bare openings)
run-Files_example = run-Files numbering numbering-OpenLaw bare openings bare-Files
