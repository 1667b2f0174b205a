-- ===== src/Bus/Members.antt =====
-- The nodes on one wire, two by two.
use bmsnode_firmware.Prelude.{◌≡◌, refl, sym, ◌∙◌, ◌≢◌, ◌⊎◌, inl, inr, List, [], ◌∷◌, map, All}
use mathlib.Core.Path.{subst}
use mathlib.Core.List.{Memᴰ}
use bmsnode_firmware.Ser.{buf_cnt}
use bmsnode_firmware.Cfg.{Cfg, cfg_uid, get8}
use bmsnode_firmware.Cfg.Offset
use bmsnode_firmware.Bus.{Station}

-- Two boards have different numbers and different addresses.
abbrev pub Apart : Cfg → Cfg → Type 0
Apart c d = (cfg_uid c ≢ cfg_uid d) × (get8 c.parms Offset.addr ≢ get8 d.parms Offset.addr)

abbrev pub Differ : Station → Station → Type 0
Differ s t = Apart s.node.cfg t.node.cfg

abbrev pub Pairwise : (Station → Station → Type 0) → List Station → Type 0
Pairwise R [] = Unit
Pairwise R (s ∷ ss) = All (R s) ss × Pairwise R ss

abbrev pub Silent : Station → Type 0
Silent s = buf_cnt s.node.ser ≡ 0

-- The members of a list.
pub all_at : (P : Station → Type 0) (ss : List Station) → All P ss → {s : Station} → Memᴰ s ss → P s
all_at P [] a m = elim m [ ]
all_at P (s ∷ ss) (p, ps) (Memᴰ.head e) = subst P (sym e) p
all_at P (s ∷ ss) (p, ps) (Memᴰ.tail m) = all_at P ss ps m

pub members :
    (P : Station → Type 0) (ss : List Station) → ((s : Station) → Memᴰ s ss → P s) → All P ss
members P [] f = tt
members P (s ∷ ss) f = (f s (Memᴰ.head refl), members P ss (λ t m. f t (Memᴰ.tail m)))

-- Two members are the same or a pair.
pub pair_cases :
    (R : Station → Station → Type 0) (ss : List Station)
    → Pairwise R ss
    → {s t : Station} → Memᴰ s ss
    → Memᴰ t ss
    → (s ≡ t) ⊎ R s t ⊎ R t s
pair_cases R [] d m k = elim m [ ]
pair_cases R (x ∷ xs) (d, ds) (Memᴰ.head e) (Memᴰ.head f) = inl (e ∙ sym f)
pair_cases R (x ∷ xs) (d, ds) {t = t} (Memᴰ.head e) (Memᴰ.tail m) =
    inr (inl (subst (λ y. R y t) (sym e) (all_at (R x) xs d m)))
pair_cases R (x ∷ xs) (d, ds) {s = s} (Memᴰ.tail m) (Memᴰ.head f) =
    inr (inr (subst (λ y. R y s) (sym f) (all_at (R x) xs d m)))
pair_cases R (x ∷ xs) (d, ds) (Memᴰ.tail m) (Memᴰ.tail k) = pair_cases R xs ds m k

pub All-map :
    (P : Station → Type 0) (f : Station → Station) (ss : List Station)
    → All (λ s. P (f s)) ss
    → All P (map f ss)
All-map P f [] a = tt
All-map P f (s ∷ ss) (a, rest) = (a, All-map P f ss rest)

All-both :
    (P : Station → Type 0) (f : Station → Station) (Q : Station → Type 0) (ss : List Station)
    → All P ss
    → All Q (map f ss)
    → All (λ s. P s × Q (f s)) ss
All-both P f Q [] p q = tt
All-both P f Q (s ∷ ss) (p, ps) (q, qs) = ((p, q), All-both P f Q ss ps qs)

-- Pairs that differ before and after.
pub both_differ :
    (f : Station → Station) (ss : List Station)
    → Pairwise Differ ss
    → Pairwise Differ (map f ss)
    → Pairwise (λ s t. Differ s t × Differ (f s) (f t)) ss
both_differ f [] a b = tt
both_differ f (s ∷ ss) (a, rest) (b, bs) =
    (All-both (Differ s) f (Differ (f s)) ss a b, both_differ f ss rest bs)

keeps_one : (c d : Cfg) (s t : Station) → s.node.cfg ≡ c → t.node.cfg ≡ d → Apart c d → Differ s t
keeps_one c d s t e f a = subst (λ x. Apart x t.node.cfg) (sym e) (subst (Apart c) (sym f) a)

keeps_row :
    (f : Station → Station) (s : Station) (ss : List Station)
    → (f s).node.cfg ≡ s.node.cfg
    → All (λ t. (f t).node.cfg ≡ t.node.cfg) ss
    → All (Differ s) ss
    → All (Differ (f s)) (map f ss)
keeps_row f s [] k ks d = tt
keeps_row f s (t ∷ ts) k (h, hs) (d, ds) =
    (keeps_one s.node.cfg t.node.cfg (f s) (f t) k h d, keeps_row f s ts k hs ds)

-- A change that keeps the configurations.
pub keeps-Differ :
    (f : Station → Station) (ss : List Station)
    → All (λ s. (f s).node.cfg ≡ s.node.cfg) ss
    → Pairwise Differ ss
    → Pairwise Differ (map f ss)
keeps-Differ f [] k d = tt
keeps-Differ f (s ∷ ss) (k, ks) (d, ds) = (keeps_row f s ss k ks d, keeps-Differ f ss ks ds)
