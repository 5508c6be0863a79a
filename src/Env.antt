-- ===== src/Env.antt =====
-- What the library calls and does not implement: the kernel behind the character device, the lists
-- and errors of GLib, and the byte order of the host. All of it is a parameter, `Env`, with the
-- documented behaviour that a proof relies on in records of laws of their own.
use libhinawa.Base.{
  refl, arith, ℕ, ◌≡◌, List, [], ◌∷◌, Option, none, some, Bool, if◌then◌else◌, ◌==◌,
}
use libhinawa.Enums.{NodeError, ReqError, RespError, FcpError}
use libhinawa.Abi.{Request, Args}

-- A `GError` by its domain and code; `_errno` where the message quotes a number of `errno`.
pub data GError : Type 0 where
  node_error : NodeError → GError
  node_failed : ℕ → GError
  file_error : ℕ → GError
  req_error : ReqError → GError
  req_error_errno : ReqError → ℕ → GError
  resp_error : RespError → GError
  resp_failed : ℕ → GError
  fcp_error : FcpError → GError

-- An argument `GError **error`: a null pointer, or a pointer to a variable.
pub data ErrorSlot : Type 0 where
  null : ErrorSlot
  empty : ErrorSlot
  holds : GError → ErrorSlot

-- What a process has asked of the kernel and of GLib so far, the latest first.
pub data Effect : Type 0 where
  ioctl : Option ℕ → (r : Request) → Args r → Effect
  opened : List ℕ → ℕ → Effect
  closed : ℕ → Effect
  ref : ℕ → Effect
  unref : ℕ → Effect
  -- An access beyond the memory behind a pointer, which should not be.
  overrun : Effect

-- The answer of a system call: what it wrote or returned, or `errno`.
pub data Reply (A : Type 0) : Type 0 where
  done : A → Reply A
  failed : ℕ → Reply A

pub record Env : Type 0 where
  -- `ioctl(2)` and `open(2)`, in the light of all calls before; no file descriptor is -1.
  pub ioctl : List Effect → Option ℕ → (r : Request) → Args r → Reply (Args r)
  pub open_file : List Effect → List ℕ → ℕ → Reply ℕ
  -- `g_file_error_from_errno`, and `G_FILE_ERROR_FAILED`
  pub file_error_from_errno : ℕ → ℕ
  pub file_error_failed : ℕ
  -- `g_list_prepend`, `g_list_find` (the place of the link) and `g_list_delete_link`
  pub list_prepend : List ℕ → ℕ → List ℕ
  pub list_find : List ℕ → ℕ → Option ℕ
  pub list_delete_link : List ℕ → ℕ → List ℕ
  -- What a variable holds after `g_set_error` met an error in it, which GLib warns of.
  pub overwrite : GError → GError → GError
  -- `GUINT32_TO_BE`, and the bytes of a quadlet in the memory of the host
  pub to_be : ℕ → ℕ
  pub host_bytes : ℕ → List ℕ

-- A list without the first `x`.
unfoldable pub remove_first : ℕ → List ℕ → List ℕ
remove_first x [] = []
remove_first x (y ∷ ys) = if y == x then ys else y ∷ remove_first x ys

unfoldable pub contains : ℕ → List ℕ → Bool
contains x [] = Bool.false
contains x (y ∷ ys) = if y == x then Bool.true else contains x ys

pub remove_first-missing : (x : ℕ) (l : List ℕ) → contains x l ≡ Bool.false → remove_first x l ≡ l
unfolding remove_first contains
remove_first-missing x [] h = refl
remove_first-missing x (y ∷ l) h = ground (arith, remove_first-missing x l)

-- The functions on `GList`: `g_list_find` has the first link with the value, if any, and
-- `g_list_delete_link` takes out the link that it is given.
pub record ListLaws (E : Env) : Type 0 where
  pub prepend : (l : List ℕ) (x : ℕ) → E.list_prepend l x ≡ x ∷ l
  pub missing : (l : List ℕ) (x : ℕ) → contains x l ≡ Bool.false → E.list_find l x ≡ none
  pub found :
      (l : List ℕ) (x : ℕ)
      → contains x l ≡ Bool.true
      → (k : ℕ) × (E.list_find l x ≡ some k) × (E.list_delete_link l k ≡ remove_first x l)

-- `g_set_error`
unfoldable pub set_error : Env → ErrorSlot → GError → ErrorSlot
set_error E null e = null
set_error E empty e = holds e
set_error E (holds d) e = holds (E.overwrite d e)

-- `error == NULL`, and `error == NULL || *error == NULL`
unfoldable pub is_null : ErrorSlot → Bool
is_null null = Bool.true
is_null _ = Bool.false

unfoldable pub is_unset : ErrorSlot → Bool
is_unset (holds e) = Bool.false
is_unset _ = Bool.true
