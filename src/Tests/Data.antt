-- ===== src/Tests/Data.antt =====
-- The inputs of the tests: a database as an association list, and a bucket with one object.
use jario.Base.{true, false, [], ◌∷◌, replicate}
use jario.Text.{Text, codes, text_eq_inst}
use jario.Text.Decimal.{format_int}
use jario.Outcome.{ok, Codec}
use jario.GoMap.{GoMap, lookup, insert, delete}
use jario.BucketDb.{Bolt, BucketMeta}
use jario.MetaStore.Versions.{ObjectMeta, VersionEntry, VersionState}
use jario.MetaStore.Ops.{MetaStore}

abbrev pub bolt : Bolt
bolt = record {
  Db = GoMap Text Text;
  get = λ db k. lookup k db;
  put = λ db k v. ok (insert k v db);
  delete = λ db k. ok (delete k db);
  for_each = λ db. db;
}

-- A codec that is used at one value only.
abbrev pub constant : {A : Type 0} → A → Codec A
constant a = record { marshal = λ _. ok []; unmarshal = λ _. ok a }

abbrev pub photos : Text
photos = codes "photos"

abbrev pub cat : Text
cat = codes "cat"

abbrev pub bucket_meta : BucketMeta
bucket_meta = record { name = photos; region = []; created_at = 5 }

abbrev pub sha_a : Text
sha_a = replicate 64 b'a'

abbrev pub sha_b : Text
sha_b = replicate 64 b'b'

abbrev pub meta_with : Text → Text → ObjectMeta
meta_with sha vid = record {
  key = cat;
  size = 3;
  etag = sha;
  content_type = [];
  sha256 = sha;
  created_at = 7;
  version_id = vid;
  is_delete_marker = false;
}

abbrev pub upload : ObjectMeta
upload = meta_with sha_a []

abbrev pub first : VersionEntry
first = record { meta = meta_with sha_a (format_int 1) }

abbrev pub second : VersionEntry
second = record { meta = meta_with sha_b (format_int 2) }

abbrev pub two : VersionState
two = record { versions = first ∷ second ∷ []; current = 1; next_id = 3 }

abbrev pub store_with : GoMap Text VersionState → MetaStore (GoMap Text Text)
store_with objs = record {
  buckets = [];
  cache = (photos, true) ∷ [];
  objects = (photos, objs) ∷ [];
  region = [];
}

abbrev pub filled : MetaStore (GoMap Text Text)
filled = store_with ((cat, two) ∷ [])
