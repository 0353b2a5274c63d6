-- ===== src/Inference/Evidence.antt =====
-- apps/ml-platform/rust-inference/src/evidence/evidence_engine.rs: the features of a player that lie
-- far above the lobby's median, the two greatest first.
pub mod Top
use fps_anticheat_data_platf.Prelude.{
  ℕ, Bool, String, Option, none, some, List, [], ◌∷◌, take, if◌then◌else◌,
}
use fps_anticheat_data_platf.Prelude.Float.{Float, lt, Arithmetic}
use fps_anticheat_data_platf.Prelude.Text.{concat}

pub record EvidenceItem : Type 0 where
  pub feature : String
  pub value : Float
  pub lobby_avg : Float
  pub z_score : Float
  pub reason : String

pub record EvidenceMatrix : Type 0 where
  pub top_evidence_features : List EvidenceItem

-- a row of the three tables: name, median and MAD
pub record Reference : Type 0 where
  pub feature : String
  pub median : Float
  pub mad : Float

-- the stable sort by descending score: `x` goes before the first item that it exceeds
unfoldable pub insert_item : EvidenceItem → List EvidenceItem → List EvidenceItem
insert_item x [] = x ∷ []
insert_item x (y ∷ rest) =
    let later = insert_item x rest in if lt y.z_score x.z_score then x ∷ y ∷ rest else y ∷ later

-- the items of `rest` come after those of `sorted`
unfoldable pub sort_onto : List EvidenceItem → List EvidenceItem → List EvidenceItem
unfolding insert_item
sort_onto sorted [] = sorted
sort_onto sorted (x ∷ rest) = sort_onto (insert_item x sorted) rest

module _ (f32 : Arithmetic) where
  abbrev pub references : List Reference
  references =
      record { feature = "kills_per_minute"; median = f32.literal 15 2; mad = f32.literal 8 2 }
      ∷ record {
        feature = "damage_per_minute";
        median = f32.literal 1200 1;
        mad = f32.literal 450 1;
      }
      ∷ record { feature = "headshot_ratio"; median = f32.literal 18 2; mad = f32.literal 8 2 }
      ∷ record { feature = "damage_per_kill"; median = f32.literal 1000 1; mad = f32.literal 300 1 }
      ∷ record {
        feature = "movement_per_minute";
        median = f32.literal 1500 1;
        mad = f32.literal 400 1;
      }
      ∷ record {
        feature = "performance_versus_lobby";
        median = f32.literal 2000 1;
        mad = f32.literal 800 1;
      }
      ∷ []

  unfoldable pub z_score_of : Reference → Float → Float
  z_score_of r val = f32.div (f32.sub val r.median) (f32.mul r.mad (f32.literal 14826 4))

  unfoldable pub item_of : Reference → Float → EvidenceItem
  unfolding z_score_of
  item_of r val = record {
    feature = r.feature;
    value = val;
    lobby_avg = r.median;
    z_score =
        f32.div (f32.round (f32.mul (z_score_of r val) (f32.literal 100 1))) (f32.literal 100 1);
    reason = concat (
        "Chỉ số "
        ∷ r.feature
        ∷ " ("
        ∷ f32.show 2 val
        ∷ ") vượt quá bất thường so với trung bình trận ("
        ∷ f32.show 2 r.median
        ∷ ") với Robust Z-Score +"
        ∷ f32.show 1 (z_score_of r val)
        ∷ []);
  }

  -- the loop over the indices that both the tables and the features have
  unfoldable pub collect : List Reference → List Float → List EvidenceItem
  unfolding z_score_of item_of
  collect [] vals = []
  collect (r ∷ rs) [] = []
  collect (r ∷ rs) (val ∷ vals) =
      let rest = collect rs vals in
      if lt (f32.literal 15 1) (z_score_of r val) then item_of r val ∷ rest else rest

  unfoldable pub generate_evidence : List Float → EvidenceMatrix
  unfolding collect sort_onto
  generate_evidence features = record {
    top_evidence_features = take 2 (sort_onto [] (collect references features));
  }
