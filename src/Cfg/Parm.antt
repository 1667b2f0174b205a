-- ===== src/Cfg/Parm.antt =====
-- The parameter table of src/cfg.c, and setting and getting a parameter by its id.
use mathlib.Core.Path.{subst}
use bmsnode_firmware.Cfg.Persist.{cfg_store-cfg_load, SameParms}
use bmsnode_firmware.Prelude.{
  ℕ, ◌+◌, ◌≤◌, ◌<◌, ◌≡◌, refl, sym, ap, ◌∙◌, ◌≢◌, ◌↔◌, ◌⊎◌, Bool, true, false, ◌&&◌, ◌||◌, List, [],
  ◌∷◌, arith, leb, ◌==◌, if◌then◌else◌, length, get_or, set, take, length-set, get_or-set_self,
  get_or-set_ne, check_below, check_below_sound,
}
use bmsnode_firmware.Cfg.{
  cfg_store, cfg_load, cfg_set, cfg_get, Cfg, Eeprom, parm_index, parm_count, write_parm,
}

abbrev pub IsParm : ℕ → Type 0
IsParm id = (1 ≤ id) × (id ≤ 13)

-- Every entry lies between the header and the crc, and has one byte or two.
entry_ok : ℕ → Bool
entry_ok id =
    id == 0
    || (leb 2 (parm_index id)
        && leb (parm_index id + parm_count id) 25
        && (parm_count id == 1 || parm_count id == 2))

entries_ok : check_below 14 entry_ok ≡ true
unfolding check_below entry_ok parm_index parm_count
entries_ok = refl

pub parm_bounds :
    (id : ℕ)
    → IsParm id
    → (2 ≤ parm_index id)
      × (parm_index id + parm_count id ≤ 25)
      × ((parm_count id ≡ 1) ⊎ (parm_count id ≡ 2))
unfolding entry_ok
parm_bounds id v = ground (arith, check_below_sound 14 entry_ok id entries_ok)

-- A later entry starts behind an earlier one.
apart : ℕ → ℕ → Bool
apart i j = leb j i || leb (parm_index i + parm_count i) (parm_index j)

apart_table : check_below 14 (λ i. check_below 14 (apart i)) ≡ true
unfolding check_below apart parm_index parm_count
apart_table = refl

parm_apart : (i j : ℕ) → i < j → j < 14 → parm_index i + parm_count i ≤ parm_index j
unfolding apart
parm_apart i j lt hj =
    let row = check_below_sound 14 (λ i. check_below 14 (apart i)) i apart_table (omega arith) in
    ground (arith, check_below_sound 14 (apart i) j row hj)

-- The bytes of a parameter in a block.
abbrev pub parm_bytes : ℕ → List ℕ → List ℕ
parm_bytes id block =
    get_or block (parm_index id) 0
    ∷ (if parm_count id == 2 then get_or block (parm_index id + 1) 0 ∷ [] else [])

-- The value bytes of a payload for the parameter: those behind the id.
abbrev pub value_bytes : ℕ → List ℕ → List ℕ
value_bytes id payload =
    get_or payload 1 0 ∷ (if parm_count id == 2 then get_or payload 2 0 ∷ [] else [])

parm_bytes-SameParms :
    (id : ℕ) (a b : List ℕ)
    → IsParm id
    → ((i : ℕ) → 2 ≤ i → i < 25 → get_or a i 0 ≡ get_or b i 0)
    → parm_bytes id a ≡ parm_bytes id b
parm_bytes-SameParms id a b v same =
    ground (arith, parm_bounds id v, same (parm_index id), same (parm_index id + 1))

module _ (crc8 : ℕ → ℕ → ℕ) (ee : Eeprom) where
  write_parm_self :
      (id : ℕ) (v b : List ℕ)
      → IsParm id
      → length b ≡ 26
      → parm_bytes id (write_parm crc8 ee id v b) ≡ value_bytes id v
  write_parm_self id v b p h =
      let i = parm_index id in
      let x = get_or v 1 0 in
      let y = get_or v 2 0 in
      ground (
        arith,
        parm_bounds id p,
        length-set b i x,
        get_or-set_self b i x 0,
        get_or-set_self (set b i x) (i + 1) y 0,
        get_or-set_ne (set b i x) (i + 1) i y 0,
      )

  write_parm_other :
      (id j : ℕ) (v b : List ℕ)
      → IsParm id
      → IsParm j
      → id ≢ j
      → parm_bytes j (write_parm crc8 ee id v b) ≡ parm_bytes j b
  write_parm_other id j v b p q ne =
      let i = parm_index id in
      let k = parm_index j in
      let x = get_or v 1 0 in
      let y = get_or v 2 0 in
      let far : (i + parm_count id ≤ k) ⊎ (k + parm_count j ≤ i) =
        ground (arith, parm_apart id j, parm_apart j id) in
      ground (
        arith,
        parm_bounds id p,
        parm_bounds j q,
        far,
        get_or-set_ne b i k x 0,
        get_or-set_ne b i (k + 1) x 0,
        get_or-set_ne (set b i x) (i + 1) k y 0,
        get_or-set_ne (set b i x) (i + 1) (k + 1) y 0,
      )

  pub length-write_parm : (id : ℕ) (v b : List ℕ) → length (write_parm crc8 ee id v b) ≡ length b
  length-write_parm id v b = ground (
    arith,
    length-set b (parm_index id) (get_or v 1 0),
    length-set (set b (parm_index id) (get_or v 1 0)) (parm_index id + 1) (get_or v 2 0),
  )

  -- `cfg_set` accepts exactly the ids 1 to 13 with a payload of the parameter's length, the id byte
  -- included, and changes nothing otherwise.
  pub cfg_set_accepts :
      (c : Cfg) (len : ℕ) (payload : List ℕ)
      → let (d, ok) = cfg_set crc8 ee c len payload in
        let id = get_or payload 0 0 in
        ((ok ≡ true) ↔ (IsParm id × (len ≡ parm_count id + 1))) × (ok ≡ false → d ≡ c)
  unfolding cfg_set
  cfg_set_accepts c len payload = ((λ e. ground arith, λ e. ground arith), λ e. ground arith)

  stored_parms :
      (c : Cfg) (id : ℕ)
      → length c.parms ≡ 26
      → IsParm id
      → parm_bytes id (cfg_store crc8 ee c).parms ≡ parm_bytes id c.parms
  stored_parms c id h p =
      let (ok, whole, same) = cfg_store-cfg_load crc8 ee c (cfg_store crc8 ee c) h refl in
      let kept : SameParms crc8 ee (cfg_store crc8 ee c).parms c.parms =
        subst (λ b. SameParms crc8 ee b c.parms) whole same in
      parm_bytes-SameParms id _ _ p kept

  accepted_set :
      (c : Cfg) (len : ℕ) (payload : List ℕ)
      → (cfg_set crc8 ee c len payload).1 ≡ true
      → (cfg_set crc8 ee c len payload).0
        ≡ cfg_store crc8 ee
            (record c { parms = write_parm crc8 ee (get_or payload 0 0) payload c.parms })
  unfolding cfg_set
  accepted_set c len payload ok = ground arith

  -- After an accepted `cfg_set` the parameter has the value of the payload, every other parameter
  -- keeps its value, and a later `cfg_load` of the EEPROM restores just that configuration.
  pub cfg_set_value :
      (c later : Cfg) (len : ℕ) (payload : List ℕ)
      → length c.parms ≡ 26
      → (cfg_set crc8 ee c len payload).1 ≡ true
      → later.eeprom ≡ (cfg_set crc8 ee c len payload).0.eeprom
      → let d = (cfg_set crc8 ee c len payload).0 in
        let id = get_or payload 0 0 in
        (parm_bytes id d.parms ≡ value_bytes id payload)
        × ((j : ℕ) → IsParm j → id ≢ j → parm_bytes j d.parms ≡ parm_bytes j c.parms)
        × ((cfg_load crc8 ee later).1 ≡ true)
        × ((cfg_load crc8 ee later).0.parms ≡ d.parms)
  cfg_set_value c later len payload h ok e =
      let id = get_or payload 0 0 in
      let p = ((cfg_set_accepts c len payload).0.0 ok).0 in
      let w = record c { parms = write_parm crc8 ee id payload c.parms } in
      let size : length w.parms ≡ 26 = length-write_parm id payload c.parms ∙ h in
      let is : (cfg_set crc8 ee c len payload).0 ≡ cfg_store crc8 ee w =
        accepted_set c len payload ok in
      let load = cfg_store-cfg_load crc8 ee w later size (e ∙ ap (λ (x : Cfg). x.eeprom) is) in
      (
        ap (λ (x : Cfg). parm_bytes id x.parms) is
            ∙ stored_parms w id size p
            ∙ write_parm_self id payload c.parms p h,
        λ j q ne.
            ap (λ (x : Cfg). parm_bytes j x.parms) is
            ∙ stored_parms w j size q
            ∙ write_parm_other id j payload c.parms p q ne,
        load.0,
        load.1 ∙ ap (λ (x : Cfg). x.parms) (sym is),
      )

-- For an id from 1 to 13 and a buffer with room, `cfg_get` leaves the id in front, puts the bytes
-- of the parameter behind it and returns their number with the id; otherwise it returns 0 and the
-- buffer as it was.
pub cfg_get_lem :
    (c : Cfg) (len : ℕ) (buf : List ℕ)
    → len ≤ length buf
    → 3 ≤ length buf
    → let (out, n) = cfg_get c len buf in
      let id = get_or buf 0 0 in
      (IsParm id
        → parm_count id < len
        → (n ≡ parm_count id + 1) × (take n out ≡ id ∷ parm_bytes id c.parms))
      × (((IsParm id × (parm_count id < len)) → ⊥) → (n ≡ 0) × (out ≡ buf))
unfolding cfg_get
cfg_get_lem c len [] h k = absurd (omega arith)
cfg_get_lem c len (x ∷ []) h k = absurd (omega arith)
cfg_get_lem c len (x ∷ y ∷ []) h k = absurd (omega arith)
cfg_get_lem c len (x ∷ y ∷ z ∷ buf) h k =
    (λ p room. ground (arith, parm_bounds x p), λ bad. ground (arith, bad))

-- What an accepted `cfg_set` has put in, `cfg_get` gives back: the same payload, id and value.
pub cfg_set-cfg_get :
    (crc8 : ℕ → ℕ → ℕ) (ee : Eeprom) (c : Cfg) (len : ℕ) (payload : List ℕ) (buf : List ℕ)
    → length c.parms ≡ 26
    → (cfg_set crc8 ee c len payload).1 ≡ true
    → length buf ≡ 12
    → get_or buf 0 0 ≡ get_or payload 0 0
    → let (out, n) = cfg_get (cfg_set crc8 ee c len payload).0 12 buf in
      (n ≡ len) × (take n out ≡ get_or payload 0 0 ∷ value_bytes (get_or payload 0 0) payload)
cfg_set-cfg_get crc8 ee c len payload buf h ok size same =
    let id = get_or payload 0 0 in
    let d = (cfg_set crc8 ee c len payload).0 in
    let (p, n) = (cfg_set_accepts crc8 ee c len payload).0.0 ok in
    let p' : IsParm (get_or buf 0 0) = subst IsParm (sym same) p in
    let few = parm_bounds (get_or buf 0 0) p' in
    let got = (cfg_get_lem d 12 buf (omega arith) (omega arith)).0 p' (ground (arith, few)) in
    let value = (cfg_set_value crc8 ee c d len payload h ok refl).0 in
    (
      got.0 ∙ ap (λ k. parm_count k + 1) same ∙ sym n,
      got.1 ∙ ap (λ k. k ∷ parm_bytes k d.parms) same ∙ ap (λ l. id ∷ l) value,
    )
