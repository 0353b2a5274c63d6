-- ===== src/Streamer/Storage/Keys.antt =====
-- apps/rust-structured-streamer/src/storage/minio.rs: the keys of a batch's objects.
use Prim.Native.Char.{Char, code}
use Prim.Native.String
use text.Mathlib.TextLemmas.{cons-append}
use fps_anticheat_data_platf.Prelude.{
  ℕ, ◌≡◌, refl, ap, sym, ◌∙◌, false, String, str_eq, str_eq_iff, arith, Bool-cases, inl, inr,
}
use fps_anticheat_data_platf.Prelude.Text.{is_blank, trim}
use fps_anticheat_data_platf.Streamer.Storage.{
  Calendar, generate_bronze_path, generate_manifest_path,
}

abbrev first_code : String → ℕ
first_code String.[] = 0
first_code (String.◌∷◌ c s) = code c

-- a text that starts with `b` or `m`
abbrev followed : Char → String → String → String
followed c s t = String.◌++◌ (String.◌∷◌ c s) t

first_code-followed : (c : Char) (s t : String) → first_code (followed c s t) ≡ code c
first_code-followed c s t = ap first_code (cons-append c s t)

trim-followed : (s t : String) → is_blank (trim (followed "b" s t)) ≡ false
unfolding trim
trim-followed s t = rw cons-append refl

manifests_ne_bronze :
    (s t : String) → str_eq (followed "m" "anifests" s) (followed "b" "ronze/player-stat" t) ≡ false
manifests_ne_bronze s t =
    let m = followed "m" "anifests" s in
    let b = followed "b" "ronze/player-stat" t in
    elim (Bool-cases (str_eq m b)) [
      | inr e ↦ e
      | inl e ↦
          let h : ◌≡◌ {A = ℕ} 109 98 =
            sym (first_code-followed "m" "anifests" s)
            ∙ ap first_code ((str_eq_iff m b).0 e)
            ∙ first_code-followed "b" "ronze/player-stat" t in
          absurd (omega (arith, h))
    ]

-- a Bronze key is never blank
pub generate_bronze_path-not_blank :
    (calendar : Calendar) (batch_id now : String)
    → is_blank (trim (generate_bronze_path calendar batch_id now)) ≡ false
unfolding generate_bronze_path
generate_bronze_path-not_blank calendar batch_id now = trim-followed "ronze/player-stat" _

-- the manifest is never written over the Bronze object
pub manifest-ne-bronze :
    (calendar : Calendar) (batch_id now : String)
    → str_eq
        (generate_manifest_path calendar batch_id now)
        (generate_bronze_path calendar batch_id now)
      ≡ false
unfolding generate_bronze_path generate_manifest_path
manifest-ne-bronze calendar batch_id now = manifests_ne_bronze _ _
