-- ===== src/Node/Open/Laws.antt =====
-- `hinawa_fw_node_open` on every branch, and the configuration ROM after it.
use libhinawa.Base.{
  ℕ, ◌+◌, ◌/◌, ◌≤◌, ◌≡◌, ◌≢◌, ◌⊎◌, inl, inr, List, ◌∷◌, ◌++◌, Option, none, some, true, false,
  arith, Bool-cases, take, drop, flat_map, length,
}
use Prim.Native.Nat.{bit_or}
use libhinawa.Abi.{GetInfo, get_info}
use libhinawa.Env.{Env, ErrorSlot, empty, opened, done, set_error, is_unset}
use libhinawa.Node.{FwNode, World, update_info, info_query}
use libhinawa.Node.Rom.{big_endian, AreQuadlets, BigEndianLaw, image_lem}
use libhinawa.Node.Open.{is_path, load_info, open_device, open_node, get_config_rom, o_rdonly}

-- The file descriptor of the object at an address.
abbrev pub fd_at : World → ℕ → Option ℕ
fd_at w self = elim (w.nodes self) [ none ↦ none | some priv ↦ priv.fd ]

module _ (E : Env) where
  -- On an existing object with a path of one byte at least and an error that is not set before,
  -- `hinawa_fw_node_open` returns `FALSE` exactly when it sets the error.
  open_node-is_unset :
      (w : World) (self : ℕ) (priv : FwNode) (c : ℕ) (path : List ℕ) (open_flag : ℕ)
      → w.nodes self ≡ some priv
      → let r = open_node E w (some self) (some (c ∷ path)) open_flag empty in
        is_unset r.error ≡ r.value
  unfolding open_node open_device load_info set_error is_unset is_path update_info
  open_node-is_unset w self priv c path open_flag a = ground arith

  -- Whatever is passed, `hinawa_fw_node_open` returns `TRUE` only where the object had no
  -- descriptor, and then it has one; where it returns `FALSE`, the descriptor is what it was, also
  -- when the file was opened and `FW_CDEV_IOC_GET_INFO` failed.
  open_node-fd_at :
      (w : World) (self : ℕ) (path : Option (List ℕ)) (open_flag : ℕ) (error : ErrorSlot)
      → let r = open_node E w (some self) path open_flag error in
        ((r.value ≡ true) × (fd_at w self ≡ none) × (fd_at r.world self ≢ none))
        ⊎ ((r.value ≡ false) × (fd_at r.world self ≡ fd_at w self))
  unfolding open_node open_device load_info update_info
  open_node-fd_at w self path open_flag error =
      elim (Bool-cases (open_node E w (some self) path open_flag error).value) [
        | inl h ↦ inl (h, ground arith, ground arith)
        | inr h ↦ inr (h, ground arith)
      ]

  -- On an object without a descriptor, where `open(2)` succeeds for a path that is not empty and
  -- the kernel answers `FW_CDEV_IOC_GET_INFO` with quadlets of 32 bits, at least as many as the
  -- length begins, and with the law of the byte order: `hinawa_fw_node_get_config_rom` after
  -- `hinawa_fw_node_open` stores the length that the kernel tells, and as the image the bytes of
  -- the kernel's quadlets from the highest to the lowest for as many as the length begins,
  -- followed by the rest of the array.
  pub open_node-get_config_rom :
      BigEndianLaw E
      → (w : World) (self fd c : ℕ) (priv : FwNode) (path : List ℕ) (open_flag : ℕ) (info : GetInfo)
      → w.nodes self ≡ some priv
      → priv.fd ≡ none
      → E.open_file w.trace (c ∷ path) (bit_or open_flag o_rdonly) ≡ done fd
      → E.ioctl
          (opened (c ∷ path) (bit_or open_flag o_rdonly) ∷ w.trace)
          (some fd)
          get_info
          (info_query self (record priv { fd = some fd }))
        ≡ done info
      → (info.rom_length + 3) / 4 ≤ length info.rom
      → AreQuadlets info.rom
      → let n = (info.rom_length + 3) / 4 in
        let r = open_node E w (some self) (some (c ∷ path)) open_flag empty in
        get_config_rom E r.world (some self) empty ≡ (
          some (
            flat_map big_endian (take n info.rom) ++ flat_map E.host_bytes (drop n info.rom),
            info.rom_length,
          ),
          empty,
        )
  unfolding open_node open_device load_info update_info get_config_rom is_unset is_path
  open_node-get_config_rom law w self fd c priv path open_flag info a b o i len q =
      ground (arith, image_lem E law ((info.rom_length + 3) / 4) info.rom len q)
