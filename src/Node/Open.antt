-- ===== src/Node/Open.antt =====
-- src/fw_node.c: opening the character device, and what the object tells of it.
pub mod Laws
use Prim.Native.Nat.{bit_or}
use libhinawa.Base.{
  ℕ, List, [], ◌∷◌, Option, none, some, Bool, true, false, not, ◌&&◌, ◌==◌, if◌then◌else◌, flat_map,
}
use libhinawa.Enums.{disconnected, opened, not_opened}
use libhinawa.Env.{
  Env, ErrorSlot, GError, node_error, node_failed, file_error, Effect, done, failed, set_error,
  is_unset,
}
use libhinawa.Node.{FwNode, World, put_node, emit, Outcome, update_info}
use libhinawa.Node.Ioctl.{enodev}

abbrev pub o_rdonly : ℕ
o_rdonly = 0

-- `path != NULL && strlen(path) > 0`
unfoldable pub is_path : Option (List ℕ) → Bool
is_path none = false
is_path (some []) = false
is_path (some (c ∷ path)) = true

-- The bytes behind a pointer that the guards let pass.
abbrev pub path_of : Option (List ℕ) → List ℕ
path_of none = []
path_of (some path) = path

module _ (E : Env) where
  -- The error for `errno` of `open(2)`.
  unfoldable pub open_error : ℕ → GError
  open_error errno =
      if errno == enodev
      then node_error disconnected
      else if E.file_error_from_errno errno == E.file_error_failed
      then node_failed errno
      else file_error (E.file_error_from_errno errno)

  -- The error for `errno` of `FW_CDEV_IOC_GET_INFO`.
  unfoldable pub info_error : ℕ → GError
  info_error err = if err == enodev then node_error disconnected else node_failed err

  -- After `open(2)`: `update_info`, and the way back if it fails.
  unfoldable pub load_info : World → ℕ → FwNode → ℕ → ErrorSlot → Outcome Bool
  load_info w self priv fd error =
      let (err, trace, priv') = update_info E w.trace self (record priv { fd = some fd }) in
      let w' = record w { trace = trace } in
      if err == 0
      then record { value = true; error = error; world = put_node w' self priv' }
      else record {
        value = false;
        error = set_error E error (info_error err);
        world = put_node (emit w' (Effect.closed fd)) self (record priv' { fd = none });
      }

  unfoldable pub open_device : World → ℕ → FwNode → List ℕ → ℕ → ErrorSlot → Outcome Bool
  open_device w self priv path open_flag error =
      let flag = bit_or open_flag o_rdonly in
      let w' = emit w (Effect.opened path flag) in
      elim (E.open_file w.trace path flag) [
        | failed errno ↦ record {
          value = false;
          error = set_error E error (open_error errno);
          world = w';
        }
        | done fd ↦ load_info w' self priv fd error
      ]

  -- `hinawa_fw_node_open`
  unfoldable pub open_node : World → Option ℕ → Option (List ℕ) → ℕ → ErrorSlot → Outcome Bool
  open_node w none path open_flag error = record { value = false; error = error; world = w }
  open_node w (some self) path open_flag error = elim (w.nodes self) [
    | none ↦ record { value = false; error = error; world = w }
    | some priv ↦
        if not (is_path path && is_unset error)
        then record { value = false; error = error; world = w }
        else elim priv.fd [
          | some fd ↦ record {
            value = false;
            error = set_error E error (node_error opened);
            world = w;
          }
          | none ↦ open_device w self priv (path_of path) open_flag error
        ]
  ]

  -- `hinawa_fw_node_get_config_rom`: the image and the length that it stores, if it returns `TRUE`.
  -- The image is the array itself, seen as the bytes of its quadlets.
  unfoldable pub get_config_rom : World → Option ℕ → ErrorSlot → Option (List ℕ × ℕ) × ErrorSlot
  get_config_rom w none error = (none, error)
  get_config_rom w (some self) error = elim (w.nodes self) [
    | none ↦ (none, error)
    | some priv ↦ if not (is_unset error) then (none, error) else elim priv.fd [
      | none ↦ (none, set_error E error (node_error not_opened))
      | some fd ↦ (some (flat_map E.host_bytes priv.config_rom, priv.config_rom_length), error)
    ]
  ]

  -- `handle_update` without its signal: the result of `update_info` is ignored.
  unfoldable pub handle_update : World → ℕ → World
  handle_update w self = elim (w.nodes self) [
    | none ↦ w
    | some priv ↦
        let (err, trace, priv') = update_info E w.trace self priv in
        put_node (record w { trace = trace }) self priv'
  ]
