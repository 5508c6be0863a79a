-- ===== src/Node/Rom.antt =====
-- The configuration ROM after `update_info`: quadlets of the host become big-endian bytes.
use libhinawa.Base.{
  ℕ, zero, suc, ◌+◌, ◌/◌, ◌%◌, ◌^◌, ◌≤◌, ◌<◌, ◌≡◌, refl, ap, ◌∙◌, List, [], ◌∷◌, ◌++◌, arith,
  length, get_or, set, take, drop, flat_map, map,
}
use libhinawa.Env.{Env}
use libhinawa.Node.{swap_from}

-- The four bytes of a quadlet, the highest first.
abbrev pub big_endian : ℕ → List ℕ
big_endian q = q / 2 ^ 24 ∷ q / 2 ^ 16 % 256 ∷ q / 2 ^ 8 % 256 ∷ q % 256 ∷ []

abbrev pub AreQuadlets : List ℕ → Type 0
AreQuadlets [] = Unit {0}
AreQuadlets (q ∷ qs) = (q < 2 ^ 32) × AreQuadlets qs

module _ (E : Env) where
  -- The loop reaches the quadlets from `i` to `i + left` and no other.
  pub swap_from-cons :
      (left i x : ℕ) (rom : List ℕ)
      → swap_from E left (suc i) (x ∷ rom) ≡ x ∷ swap_from E left i rom
  unfolding swap_from
  swap_from-cons zero i x rom = refl
  swap_from-cons (suc left) i x rom =
      let next : suc i + 1 ≡ suc (i + 1) = omega arith in
      rw next (swap_from-cons left (i + 1) x (set rom i (E.to_be (get_or rom i 0))))

  pub swap_from_lem :
      (n : ℕ) (rom : List ℕ)
      → n ≤ length rom
      → swap_from E n 0 rom ≡ map E.to_be (take n rom) ++ drop n rom
  unfolding swap_from
  swap_from_lem zero rom h = refl
  swap_from_lem (suc n) [] h = absurd (omega arith)
  swap_from_lem (suc n) (x ∷ rom) h =
      swap_from-cons n 0 (E.to_be x) rom ∙ ap (◌∷◌ (E.to_be x)) (swap_from_lem n rom (omega arith))

  -- `GUINT32_TO_BE`: in the memory of the host the result has the bytes of the quadlet `q` from the
  -- highest to the lowest.
  abbrev pub BigEndianLaw : Type 0
  BigEndianLaw = (q : ℕ) → q < 2 ^ 32 → E.host_bytes (E.to_be q) ≡ big_endian q

  swapped_bytes :
      BigEndianLaw
      → (n : ℕ) (rom : List ℕ) → n ≤ length rom
      → AreQuadlets rom
      → flat_map E.host_bytes (map E.to_be (take n rom) ++ drop n rom)
        ≡ flat_map big_endian (take n rom) ++ flat_map E.host_bytes (drop n rom)
  swapped_bytes law zero rom h q = refl
  swapped_bytes law (suc n) [] h q = absurd (omega arith)
  swapped_bytes law (suc n) (x ∷ rom) h q =
      rw (law x q.0, swapped_bytes law n rom (omega arith) q.1) refl

  pub image_lem :
      BigEndianLaw
      → (n : ℕ) (rom : List ℕ) → n ≤ length rom
      → AreQuadlets rom
      → flat_map E.host_bytes (swap_from E n 0 rom)
        ≡ flat_map big_endian (take n rom) ++ flat_map E.host_bytes (drop n rom)
  image_lem law n rom h q = rw (swap_from_lem n rom h) (swapped_bytes law n rom h q)
