-- ===== src/Shunt/Regulate.antt =====
-- The level that src/shunt.c regulates towards.
use bmsnode_firmware.Prelude.{ℕ, ◌+◌, ◌-◌, ◌*◌, ◌/◌, ◌≤◌, ◌<◌, ◌≡◌, ◌≢◌, List, arith, u16}
use bmsnode_firmware.Prelude.Int.{negsuc, to_u16}
use bmsnode_firmware.Shunt.{
  ShuntStatus, shunt_idle, shunt_on, shuntmax, shuntmin, temphi, templo, volt_level, temp_limit,
}

-- The level that the voltage asks for is 0 up to the lower threshold, 255 from the upper one on,
-- and at most 255 between them.
pub volt_level_lem :
    (parms : List ℕ) (vrange cellmv : ℕ)
    → (cellmv ≤ shuntmin parms → volt_level parms vrange cellmv ≡ (0, shunt_idle))
      × (shuntmin parms < cellmv
          → shuntmax parms ≤ cellmv
          → volt_level parms vrange cellmv ≡ (255, shunt_on))
      × ((volt_level parms vrange cellmv).0 ≤ 255)
unfolding volt_level
volt_level_lem parms vrange cellmv = (λ h. ground arith, λ h k. ground arith, ground arith)

div_mono : (a b n : ℕ) → a ≤ b → a / n ≤ b / n
div_mono a b n h = grind arith

-- With the range that `shunt_start` computes from the same configuration, the division is by no
-- zero wherever it is reached, and a higher voltage never asks for a lower level.
pub volt_level_mono :
    (parms : List ℕ) (vrange low high : ℕ)
    → shuntmax parms < 65536
    → vrange ≡ u16 (shuntmax parms + 65536 - shuntmin parms)
    → low ≤ high
    → ((volt_level parms vrange low).0 ≤ (volt_level parms vrange high).0)
      × (shuntmin parms < low → low < shuntmax parms → vrange ≢ 0)
unfolding volt_level
volt_level_mono parms vrange low high m e h =
    let x = (low - shuntmin parms) * 256 in
    let y = (high - shuntmin parms) * 256 in
    let up : x / vrange ≤ y / vrange = div_mono x y vrange (omega arith) in
    (ground (arith, up), λ a b. ground arith)

-- The temperature never raises the level; from the upper limit on the level is 0, up to the lower
-- limit it is the one that the voltage asks for. The limits are read as unsigned numbers.
pub temp_limit_lem :
    (parms : List ℕ) (trange tempc level : ℕ) (status : ShuntStatus)
    → level ≤ 255
    → let out = temp_limit parms trange tempc (level, status) in
      (out.0 ≤ level)
      × (temphi parms ≤ tempc → out.0 ≡ 0)
      × (tempc < temphi parms → tempc ≤ templo parms → out ≡ (level, status))
unfolding temp_limit
temp_limit_lem parms trange tempc level status h =
    (ground arith, λ a. ground arith, λ a b. ground arith)

-- With an upper temperature limit from 0 to 127 degrees, the level is 0 at every temperature below
-- 0, as it is from the limit on: the code reads a negative temperature as a large unsigned number.
pub temp_limit_cold :
    (parms : List ℕ) (trange below level : ℕ) (status : ShuntStatus)
    → below < 32768
    → temphi parms ≤ 127
    → level ≤ 255
    → (temp_limit parms trange (to_u16 (negsuc below)) (level, status)).0 ≡ 0
temp_limit_cold parms trange below level status cold hi small =
    (temp_limit_lem parms trange (to_u16 (negsuc below)) level status small).1 (omega arith)
