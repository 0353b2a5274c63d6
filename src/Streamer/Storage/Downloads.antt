-- ===== src/Streamer/Storage/Downloads.antt =====
-- apps/rust-structured-streamer/src/storage/minio.rs: downloads of objects to local files. The object
-- store and the local disk are parameters.
use fps_anticheat_data_platf.Prelude.{ℕ, String, Option, none, some, List, [], ◌∷◌}
use fps_anticheat_data_platf.Prelude.Text.{concat, last_segment}
use fps_anticheat_data_platf.Prelude.Result.{Result, ok, err, ◌>>=◌}
use fps_anticheat_data_platf.Streamer.Action.{AppError, storage, Effect}

-- a file with the bytes that it holds
pub record LocalFile : Type 0 where
  pub path : String
  pub bytes : List ℕ

pub data DiskOperation : Type 0 where
  create read write make_dir list : DiskOperation

-- The local disk: which operations on a path fail, and what a file holds after a `BufWriter` over it
-- was written to and dropped, unless `write_all` fails: the drop ignores errors.
pub record Disk : Type 0 where
  pub fault : DiskOperation → String → Option String
  pub buffered : String → List ℕ → Result String (List ℕ)

-- `head` answers whether the object is there, or with an error
pub data Head : Type 0 where
  found not_found : Head
  failed : String → Head

-- `get` and then `bytes` of the answer's stream
pub record ObjectStore : Type 0 where
  pub get : List Effect → String → Result String (Result String (List ℕ))
  pub head : List Effect → String → Head
  pub put_fault : List Effect → Option String

abbrev pub or_error {ℓ} : {A : Type ℓ} → (String → AppError) → Result String A → Result AppError A
or_error wrap (ok a) = ok a
or_error wrap (err e) = err (wrap e)

abbrev pub unless_fault : (String → AppError) → Option String → Result AppError (Unit {0})
unless_fault wrap none = ok tt
unless_fault wrap (some e) = err (wrap e)

abbrev pub join : String → String → String
join dir name = concat (dir ∷ "/" ∷ name ∷ [])

module _ (store : ObjectStore) where
  -- `store.get` and then `bytes` of its answer
  abbrev pub streamed : String → Result String (Result String (List ℕ)) → Result AppError (List ℕ)
  streamed key (err e) =
      err (storage (concat ("Download object '" ∷ key ∷ "' từ MinIO thất bại: " ∷ e ∷ [])))
  streamed key (ok (err e)) =
      err (storage (concat ("Đọc bytes object '" ∷ key ∷ "' từ stream thất bại: " ∷ e ∷ [])))
  streamed key (ok (ok bytes)) = ok bytes

  -- after the calls of a log
  unfoldable pub download_object_bytes : List Effect → String → Result AppError (List ℕ)
  download_object_bytes log object_key = streamed object_key (store.get log object_key)

  unfoldable pub download_to_temp : Disk → List Effect → String → String → Result AppError LocalFile
  unfolding download_object_bytes last_segment
  download_to_temp disk log object_key temp_dir = do
    bytes ← download_object_bytes log object_key
    let local_path = join temp_dir (last_segment "downloaded_object" object_key)
    _ ←
        unless_fault
          (λ e. storage (concat ("Không thể tạo temp file '" ∷ local_path ∷ "': " ∷ e ∷ [])))
          (disk.fault create local_path)
    held ←
        or_error
          (λ e.
            storage (concat ("Không thể ghi bytes vào temp file '" ∷ local_path ∷ "': " ∷ e ∷ [])))
          (disk.buffered local_path bytes)
    ok (record { path = local_path; bytes = held })
