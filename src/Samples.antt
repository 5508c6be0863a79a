-- ===== src/Samples.antt =====
-- Kernels, lists and a byte order that have the documented behaviour, and a few objects: what the
-- tests apply the theorems to.
use libhinawa.Base.{
  ℕ, zero, suc, ◌≡◌, refl, List, [], ◌∷◌, Option, none, some, true, false, arith, ◌==◌,
  if◌then◌else◌, ◌>>=◌, Bool-cases, inl, inr,
}
use libhinawa.Abi.{Request, Args}
use libhinawa.Env.{Env, Reply, done, failed, ListLaws, contains, remove_first}
use libhinawa.Node
use libhinawa.Node.{FwNode, World}
use libhinawa.Node.Rom.{big_endian, BigEndianLaw}

-- The place of the first link with a value.
unfoldable pub list_find : List ℕ → ℕ → Option ℕ
list_find [] x = none
list_find (y ∷ ys) x =
    let rest = list_find ys x in if y == x then some 0 else (rest >>= λ k. some (suc k))

unfoldable pub list_delete_link : List ℕ → ℕ → List ℕ
list_delete_link [] k = []
list_delete_link (y ∷ ys) zero = ys
list_delete_link (y ∷ ys) (suc k) = y ∷ list_delete_link ys k

list_find-missing : (l : List ℕ) (x : ℕ) → contains x l ≡ false → list_find l x ≡ none
unfolding list_find contains
list_find-missing [] x h = refl
list_find-missing (y ∷ l) x h = ground (arith, list_find-missing l x)

list_find-found :
    (l : List ℕ) (x : ℕ)
    → contains x l ≡ true
    → (k : ℕ) × (list_find l x ≡ some k) × (list_delete_link l k ≡ remove_first x l)
unfolding list_find list_delete_link contains remove_first
list_find-found [] x h = absurd (ground arith)
list_find-found (y ∷ l) x h = elim (Bool-cases (y == x)) [
  | inl e ↦ (0, ground arith, ground arith)
  | inr e ↦
      let (k, found, deleted) = list_find-found l x (ground arith) in
      (suc k, ground (arith, found), ground (arith, deleted))
]

-- A machine whose kernel answers by `answer`, and gives each file the descriptor 3.
abbrev pub machine : ((r : Request) → Args r → Reply (Args r)) → Env
machine answer = record {
  ioctl = λ trace fd r args. answer r args;
  open_file = λ trace path flag. done 3;
  file_error_from_errno = λ errno. errno;
  file_error_failed = 24;
  list_prepend = λ l x. x ∷ l;
  list_find = list_find;
  list_delete_link = list_delete_link;
  overwrite = λ old new. old;
  to_be = λ q. q;
  host_bytes = big_endian;
}

pub machine-ListLaws :
    (answer : (r : Request) → Args r → Reply (Args r)) → ListLaws (machine answer)
machine-ListLaws answer = record {
  prepend = λ l x. refl;
  missing = list_find-missing;
  found = list_find-found;
}

pub machine-BigEndianLaw :
    (answer : (r : Request) → Args r → Reply (Args r)) → BigEndianLaw (machine answer)
machine-BigEndianLaw answer = λ q h. refl

-- A kernel that grants each request as it stands, and one that fails with `EIO`.
abbrev pub granting : Env
granting = machine (λ r args. done args)

abbrev pub failing : Env
failing = machine (λ r args. failed 5)

-- An open node with two requests under way, at the address 1.
abbrev pub open_sample : FwNode
open_sample = record Node.init { fd = some 3; transactions = 20 ∷ 21 ∷ [] }

abbrev pub world_sample : World
world_sample = record {
  nodes = λ p. if p == 1 then some open_sample else if p == 2 then some Node.init else none;
  trace = [];
}
