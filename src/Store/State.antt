-- ===== src/Store/State.antt =====
-- internal/store/store.go: the state of the engine, the blob files, and what a call asks of its
-- surroundings. The file system is a map from paths to contents. `data_dir` is taken as a clean path,
-- so that `filepath.Join` only puts slashes between its parts; of a path such as ./data it writes a
-- shorter name of the same file. What a call on the disk may do to the files beside its error is in
-- the model: a failed write may have emptied the file and written a part, and a removal may fail.
use jario.Base.{
  ℕ, Bool, false, [], ◌*◌, ◌^◌, ◌++◌, Option, none, some, length, take, ltb, if◌then◌else◌,
}
use jario.Text.{Text, codes, text_eq_inst}
use jario.Outcome.{Outcome, ok, err, panic, other}
use jario.Action.{Action}
use jario.GoMap.{GoMap, insert, delete}
use jario.MetaStore.Ops.{MetaStore}
use jario.Raft.Fsm.{Raft}

pub record Part : Type 0 where
  pub part_number : ℕ
  pub size : ℕ
  pub etag : Text
  pub sha256 : Text
  pub created_at : ℕ

-- The internal `multipartUpload`.
pub record Upload : Type 0 where
  pub id : Text
  pub bucket : Text
  pub key : Text
  pub initiated : ℕ
  pub parts : GoMap ℕ Part

pub record Store (Db : Type 0) : Type 0 where
  pub data_dir : Text
  pub meta : MetaStore Db
  pub files : GoMap Text Text
  pub held : Text → Bool
  pub raft : Option Raft
  pub uploads : GoMap Text Upload
  pub region : Text

-- NewWithMeta, once it has made the directory of the blobs; `files` is what is on the disk.
-- `held`, the paths that the file system does not remove, is the disk's and may change at any time.
abbrev pub new_store :
    {Db : Type 0} → (data_dir : Text) → MetaStore Db → (files : GoMap Text Text) → Store Db
new_store data_dir meta files = record {
  data_dir = data_dir;
  meta = meta;
  files = files;
  held = λ _. false;
  raft = none;
  uploads = [];
  region = [];
}

abbrev pub set_raft : {Db : Type 0} → Option Raft → Store Db → Store Db
set_raft raft st = record st { raft = raft }

-- What a call meets: the clock, the error of reading the body, the error of making the directory of
-- a part, the error of writing a file with how many bytes were written before it (none: the file was
-- not opened), and the random hex digits of an upload ID.
pub record Env : Type 0 where
  pub now : ℕ
  pub read_error : Option Text
  pub mkdir_error : Option Text
  pub write_error : Option Text
  pub written : Option ℕ
  pub random : Text

-- 5 << 30
abbrev pub max_object_size : ℕ
max_object_size = 5 * 2 ^ 30

abbrev pub fails : Option Text → Outcome (Unit {0})
fails none = ok tt
fails (some problem) = err (other problem)

-- io.ReadAll(io.LimitReader(body, MaxObjectSize))
abbrev pub read_all : Text → Env → Outcome Text
read_all body env = elim env.read_error [
  | none ↦ ok (take max_object_size body)
  | some problem ↦ err (other problem)
]

-- blobs/<sha[0:2]>/<sha>; slicing a shorter text panics.
unfoldable pub blob_path : Text → Text → Outcome Text
blob_path data_dir sha =
    if ltb (length sha) 2
    then panic
    else ok (data_dir ++ (codes "/blobs/" ++ (take 2 sha ++ (codes "/" ++ sha))))

-- os.WriteFile opens the file with O_TRUNC, then writes: what a failed call leaves of the files.
unfoldable pub partly_written : (path content : Text) → Option ℕ → GoMap Text Text → GoMap Text Text
partly_written path content none files = files
partly_written path content (some n) files = insert path (take n content) files

-- os.Remove; the error is ignored.
unfoldable pub remove_file : (held : Text → Bool) (path : Text) → GoMap Text Text → GoMap Text Text
remove_file held path files = if held path then files else delete path files

module _ {Db : Type 0} where
  abbrev pub write_file : Text → Text → Env → Action (Store Db) (Unit {0})
  write_file path content env st = elim env.write_error [
    | none ↦ (ok tt, record st { files = insert path content st.files })
    | some problem ↦ (
      err (other problem),
      record st { files = partly_written path content env.written st.files },
    )
  ]

  -- os.MkdirAll and os.WriteFile, either of which may fail
  unfoldable pub write_blob : Text → Text → Env → Action (Store Db) (Unit {0})
  write_blob sha content env st = elim (blob_path st.data_dir sha) [
    | ok path ↦ write_file path content env st
    | err e ↦ (err e, st)
    | panic ↦ (panic, st)
  ]

  -- os.Remove(s.blobPath(sha)); the error is ignored
  unfoldable pub remove_blob : Text → Action (Store Db) (Unit {0})
  remove_blob sha st = elim (blob_path st.data_dir sha) [
    | ok path ↦ (ok tt, record st { files = remove_file st.held path st.files })
    | err e ↦ (err e, st)
    | panic ↦ (panic, st)
  ]
