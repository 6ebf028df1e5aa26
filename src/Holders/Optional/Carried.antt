-- ===== src/Holders/Optional/Carried.antt =====
-- An Opt carried as JSON, or through a database column, arrives as it was.
use filtrx.Base.{◌≡◌, refl, ap, ◌∙◌, Bool, true, false, some, Bytes, codes, Bool-cases, inl, inr}
use filtrx.Base.Compare.{bytes_eq, bytes_eq_refl}
use filtrx.Value.{null}
use filtrx.Holders.{Opt}
use filtrx.Holders.Optional.{
  Json, Boxed, is_nil_value, marshal_json, unmarshalled, unmarshal_json, scan_value, scan,
  driver_value,
}

module _ {ℓ} {T : Type ℓ} where
  -- Two Opts that a reader cannot tell apart: both unset, or set with the same value.
  abbrev pub Alike : Opt T → Opt T → Type ℓ
  Alike o p = (o.set ≡ p.set) × (o.set ≡ true → o.val ≡ p.val)

  -- encoding/json on a value of T: it decodes what it encodes, whatever was there before, and does not
  -- write null for the value.
  abbrev pub CarriesJson : Json T → T → Type ℓ
  CarriesJson j v =
      (b : Bytes) × (j.marshal v ≡ some b)
      × (bytes_eq (j.trim_space b) (codes "null") ≡ false)
      × ((w : T) → j.unmarshal b w ≡ (v, true))

  abbrev pub CarriesValue : Boxed T → T → Type ℓ
  CarriesValue x v = (x.unbox (x.box v) ≡ some v) × (is_nil_value (x.box v) ≡ false)

  -- A run that leaves `q` and has no error.
  arrived :
      (o q : Opt T) (run : Opt T × Bool)
      → run ≡ (q, true)
      → Alike o q
      → (run.1 ≡ true) × Alike o run.0
  arrived o q run h alike = rw h (refl, alike)

  set-Alike : (o : Opt T) → o.set ≡ true → Alike o (record { val = o.val; set = true })
  set-Alike o h = (h, λ k. refl)

  unset-Alike : (o p : Opt T) → o.set ≡ false → Alike o (record p { set = false })
  unset-Alike o p h = (h, λ k. absurd (cc))

  unmarshal_json-value :
      (j : Json T) (b : Bytes) (p : Opt T) (v : T)
      → bytes_eq (j.trim_space b) (codes "null") ≡ false
      → j.unmarshal b p.val ≡ (v, true)
      → unmarshal_json j b p ≡ (record { val = v; set = true }, true)
  unfolding unmarshal_json unmarshalled
  unmarshal_json-value j b p v full back = rw (full, back) refl

  unmarshal_json-null :
      (j : Json T) (p : Opt T)
      → j.trim_space (codes "null") ≡ codes "null"
      → unmarshal_json j (codes "null") p ≡ (record p { set = false }, true)
  unfolding unmarshal_json
  unmarshal_json-null j p trims = rw (trims, bytes_eq_refl (codes "null")) refl

  -- An Opt whose value, if set, JSON carries, is encoded without an error, and decoding this into any
  -- other Opt succeeds and leaves an Opt that is set or unset as the first was, with its value.
  pub unmarshal_json-marshal :
      (j : Json T) (o p : Opt T)
      → j.trim_space (codes "null") ≡ codes "null"
      → (o.set ≡ true → CarriesJson j o.val)
      → (b : Bytes) × (marshal_json j o ≡ some b)
        × ((unmarshal_json j b p).1 ≡ true)
        × Alike o (unmarshal_json j b p).0
  unfolding marshal_json
  unmarshal_json-marshal j o p trims carries = elim (Bool-cases o.set) [
    | inl there ↦
        let (b, written, full, back) = carries there in
        let (fine, alike) =
          arrived o _ (unmarshal_json j b p) (unmarshal_json-value j b p o.val full (back p.val))
            (set-Alike o there) in
        (b, rw there written, fine, alike)
    | inr absent ↦
        let (fine, alike) =
          arrived o _ (unmarshal_json j (codes "null") p) (unmarshal_json-null j p trims)
            (unset-Alike o p absent) in
        (codes "null", rw absent refl, fine, alike)
  ]

  scan-boxed :
      (x : Boxed T) (v : T) (p : Opt T)
      → CarriesValue x v
      → scan x (x.box v) p ≡ (record { val = v; set = true }, true)
  unfolding scan scan_value
  scan-boxed x v p (back, full) = rw (full, back) refl

  scan-null : (x : Boxed T) (p : Opt T) → scan x null p ≡ (record p { set = false }, true)
  unfolding scan is_nil_value
  scan-null x p = refl

  driver_value-set : (x : Boxed T) (o : Opt T) → o.set ≡ true → driver_value x o ≡ x.box o.val
  unfolding driver_value
  driver_value-set x o h = rw h refl

  driver_value-unset : (x : Boxed T) (o : Opt T) → o.set ≡ false → driver_value x o ≡ null
  unfolding driver_value
  driver_value-unset x o h = rw h refl

  -- An Opt whose value, if set, is no nil and is asserted back to its type, is scanned back from what
  -- it gives as an argument: without an error, set or unset as it was, and with its value.
  pub scan-driver_value :
      (x : Boxed T) (o p : Opt T)
      → (o.set ≡ true → CarriesValue x o.val)
      → ((scan x (driver_value x o) p).1 ≡ true) × Alike o (scan x (driver_value x o) p).0
  scan-driver_value x o p carries = elim (Bool-cases o.set) [
    | inl there ↦
        arrived o _ (scan x (driver_value x o) p)
          (ap (λ v. scan x v p) (driver_value-set x o there) ∙ scan-boxed x o.val p (carries there))
          (set-Alike o there)
    | inr absent ↦
        arrived o _ (scan x (driver_value x o) p)
          (ap (λ v. scan x v p) (driver_value-unset x o absent) ∙ scan-null x p)
          (unset-Alike o p absent)
  ]
