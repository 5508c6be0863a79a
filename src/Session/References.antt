-- ===== src/Session/References.antt =====
-- The references to a node that a process has taken and dropped: `g_object_ref` and
-- `g_object_unref` in src/fw_resp.c, src/fw_fcp.c and src/fw_req.c.
use libhinawa.Base.{
  ℕ, ◌+◌, ◌≤◌, ◌≡◌, ◌⊎◌, inl, inr, List, [], ◌∷◌, ◌++◌, Option, none, some, Bool, true, false,
  arith, ◌==◌, if◌then◌else◌, Bool-cases,
}
use libhinawa.Abi.{Request, Args}
use libhinawa.Env.{Env, ErrorSlot, Effect, ioctl, opened, closed, ref, unref, overrun}
use libhinawa.Node.{World, emit}
use libhinawa.Node.Ioctl.{node_ioctl, call_kernel}
use libhinawa.Node.Ioctl.Laws.{node_ioctl-trace}

-- How often a reference to the node at `p` was taken, and dropped.
abbrev pub refs : ℕ → List Effect → ℕ
refs p [] = 0
refs p (ref q ∷ es) = if q == p then refs p es + 1 else refs p es
refs p (unref q ∷ es) = refs p es
refs p (ioctl fd r args ∷ es) = refs p es
refs p (opened path flag ∷ es) = refs p es
refs p (closed fd ∷ es) = refs p es
refs p (overrun ∷ es) = refs p es

abbrev pub unrefs : ℕ → List Effect → ℕ
unrefs p [] = 0
unrefs p (ref q ∷ es) = unrefs p es
unrefs p (unref q ∷ es) = if q == p then unrefs p es + 1 else unrefs p es
unrefs p (ioctl fd r args ∷ es) = unrefs p es
unrefs p (opened path flag ∷ es) = unrefs p es
unrefs p (closed fd ∷ es) = unrefs p es
unrefs p (overrun ∷ es) = unrefs p es

-- At no time were more references dropped than taken.
abbrev pub IsCovered : ℕ → List Effect → Type 0
IsCovered p [] = Unit {0}
IsCovered p (e ∷ es) = (unrefs p (e ∷ es) ≤ refs p (e ∷ es)) × IsCovered p es

-- There are `k` references more taken than dropped, and none was dropped that was not taken.
abbrev pub IsBalanced : ℕ → ℕ → List Effect → Type 0
IsBalanced p k es = (refs p es ≡ unrefs p es + k) × IsCovered p es

-- The references to `p` that a pointer to a node holds.
abbrev pub held : ℕ → Option ℕ → ℕ
held p none = 0
held p (some q) = if q == p then 1 else 0

abbrev pub lives : World → ℕ → Bool
lives w p = elim (w.nodes p) [ none ↦ false | some n ↦ true ]

pub IsBalanced-subst :
    (p : ℕ) {k k' : ℕ} (es : List Effect) → k ≡ k' → IsBalanced p k es → IsBalanced p k' es
IsBalanced-subst p es e b = (omega (arith, b.0), b.1)

-- What happens beside references.
abbrev pub IsFile : Effect → Type 0
IsFile (ref q) = ⊥
IsFile (unref q) = ⊥
IsFile e = Unit {0}

pub IsBalanced-file :
    (p k : ℕ) (e : Effect) (es : List Effect)
    → IsFile e
    → IsBalanced p k es
    → IsBalanced p k (e ∷ es)
IsBalanced-file p k (ioctl fd r args) es f b = (b.0, (omega (arith, b.0), b.1))
IsBalanced-file p k (opened path flag) es f b = (b.0, (omega (arith, b.0), b.1))
IsBalanced-file p k (closed fd) es f b = (b.0, (omega (arith, b.0), b.1))
IsBalanced-file p k overrun es f b = (b.0, (omega (arith, b.0), b.1))
IsBalanced-file p k (ref q) es f b = absurd f
IsBalanced-file p k (unref q) es f b = absurd f

pub IsBalanced-ref :
    (p k q : ℕ) (es : List Effect)
    → IsBalanced p k es
    → IsBalanced p (k + held p (some q)) (ref q ∷ es)
IsBalanced-ref p k q es b = (ground (arith, b.0), (ground (arith, b.0), b.1))

pub IsBalanced-unref :
    (p k q : ℕ) (es : List Effect)
    → IsBalanced p (k + held p (some q)) es
    → IsBalanced p k (unref q ∷ es)
IsBalanced-unref p k q es b = (ground (arith, b.0), (ground (arith, b.0), b.1))

-- A call takes the world from `w` to `w'` and its object from `before` references to `after`: it
-- takes and drops as many as that, no node goes, and a node that is held more often is there.
pub record Accounts (p : ℕ) (w : World) (before : ℕ) (w' : World) (after : ℕ) : Type 0 where
  pub balance : (k : ℕ) → IsBalanced p (k + before) w.trace → IsBalanced p (k + after) w'.trace
  pub keeps : lives w p ≡ true → lives w' p ≡ true
  pub gains : (after ≤ before) ⊎ (lives w' p ≡ true)

pub Accounts-subst :
    {p : ℕ} {v w : World} {a a' b b' : ℕ}
    → a ≡ a'
    → b ≡ b'
    → Accounts p v a w b
    → Accounts p v a' w b'
Accounts-subst {p} {v} {w} {a} {a'} {b} {b'} s t f = record {
  balance = λ k e.
      IsBalanced-subst p w.trace (omega (arith, t))
        (f.balance k (IsBalanced-subst p v.trace (omega (arith, s)) e));
  keeps = f.keeps;
  gains = elim f.gains [ inl x ↦ inl (omega (arith, s, t)) | inr y ↦ inr y ];
}

pub Accounts-refl : (p : ℕ) (w : World) (a : ℕ) → Accounts p w a w a
Accounts-refl p w a = record { balance = λ k b. b; keeps = λ l. l; gains = inl (omega arith) }

pub Accounts-trans :
    {p : ℕ} {u v w : World} {a b c : ℕ}
    → Accounts p u a v b
    → Accounts p v b w c
    → Accounts p u a w c
Accounts-trans {p} {u} {v} {w} {a} {b} {c} f g = record {
  balance = λ k e. g.balance k (f.balance k e);
  keeps = λ l. g.keeps (f.keeps l);
  gains = gained f.gains g.gains;
}
  where
    gained :
        ((b ≤ a) ⊎ (lives v p ≡ true))
        → ((c ≤ b) ⊎ (lives w p ≡ true))
        → (c ≤ a) ⊎ (lives w p ≡ true)
    gained x (inr y) = inr y
    gained (inr x) (inl y) = inr (g.keeps x)
    gained (inl x) (inl y) = inl (omega arith)

-- The same beside `c` references that the call leaves alone.
pub Accounts-frame :
    {p : ℕ} {v w : World} {a b : ℕ} (c : ℕ) → Accounts p v a w b → Accounts p v (c + a) w (c + b)
Accounts-frame {p} {v} {w} {a} {b} c f = record {
  balance = λ k e.
      IsBalanced-subst p w.trace (omega arith)
        (f.balance (k + c) (IsBalanced-subst p v.trace (omega arith) e));
  keeps = f.keeps;
  gains = elim f.gains [ inl x ↦ inl (omega arith) | inr y ↦ inr y ];
}

pub Accounts-unref : (p q : ℕ) (w : World) → Accounts p w (held p (some q)) (emit w (unref q)) 0
Accounts-unref p q w = record {
  balance =
      λ k e. IsBalanced-unref p (k + 0) q w.trace (IsBalanced-subst p w.trace (omega arith) e);
  keeps = λ l. l;
  gains = inl (omega arith);
}

pub Accounts-ref :
    (p q : ℕ) (w : World) → lives w q ≡ true → Accounts p w 0 (emit w (ref q)) (held p (some q))
Accounts-ref p q w l = record {
  balance = λ k e.
      IsBalanced-subst p (ref q ∷ w.trace) (omega arith) (IsBalanced-ref p (k + 0) q w.trace e);
  keeps = λ l. l;
  gains = elim (Bool-cases (q == p)) [ inl e ↦ inr (ground arith) | inr e ↦ inl (ground arith) ];
}

abbrev pub AreFiles : List Effect → Type 0
AreFiles [] = Unit {0}
AreFiles (e ∷ es) = IsFile e × AreFiles es

IsBalanced-files :
    (p k : ℕ) (news es : List Effect)
    → AreFiles news
    → IsBalanced p k es
    → IsBalanced p k (news ++ es)
IsBalanced-files p k [] es f b = b
IsBalanced-files p k (e ∷ news) es f b =
    IsBalanced-file p k e (news ++ es) f.0 (IsBalanced-files p k news es f.1 b)

pub Accounts-files :
    {p a : ℕ} {w w' : World} (news : List Effect)
    → AreFiles news
    → w'.trace ≡ news ++ w.trace
    → (lives w p ≡ true → lives w' p ≡ true)
    → Accounts p w a w' a
Accounts-files {p} {a} {w} {w'} news f e l = record {
  balance = λ k b. rw e (IsBalanced-files p (k + a) news w.trace f b);
  keeps = l;
  gains = inl (omega arith);
}

module _ (E : Env) where
  node_ioctl-lives :
      (p : ℕ) (w : World) (self : Option ℕ) (r : Request) (args : Args r) (error : ErrorSlot)
      → lives w p ≡ true
      → lives (node_ioctl E w self r args error).world p ≡ true
  unfolding node_ioctl call_kernel
  node_ioctl-lives p w self r args error l = ground arith

  pub node_ioctl-Accounts :
      (p a : ℕ) (w : World) (self : Option ℕ) (r : Request) (args : Args r) (error : ErrorSlot)
      → Accounts p w a (node_ioctl E w self r args error).world a
  node_ioctl-Accounts p a w self r args error = record {
    balance = λ k b. elim (node_ioctl-trace E w self r args error) [
      | inl e ↦ rw e b
      | inr (fd, e) ↦ rw e (IsBalanced-file p (k + a) (ioctl (some fd) r args) w.trace tt b)
    ];
    keeps = node_ioctl-lives p w self r args error;
    gains = inl (omega arith);
  }

  -- A call that succeeds was made through a node that is there.
  pub node_ioctl_live :
      (w : World) (q : ℕ) (r : Request) (args : Args r) (error : ErrorSlot)
      → (node_ioctl E w (some q) r args error).err ≡ 0
      → lives (node_ioctl E w (some q) r args error).world q ≡ true
  unfolding node_ioctl call_kernel
  node_ioctl_live w q r args error h = ground arith
