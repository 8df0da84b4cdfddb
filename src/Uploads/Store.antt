-- ===== src/Uploads/Store.antt =====
-- internal/storage/storage.go: the interface of a store of objects, what its clients rely on, and
-- the two implementations.
use ai_website_builder.Common.{
  String, ◌<>◌, Bool, true, false, ◌||◌, ◌==◌, ◌≡◌, refl, Option, none, some, is_some,
  if◌then◌else◌, eq_iff,
}
use ai_website_builder.Common.Dict.{Dict, lookup, insert, remove, lookup-insert, lookup-remove}
use ai_website_builder.Common.Strings.{trim_right_slash}
use ai_website_builder.Uploads.Names.{has_prefix}

-- Put of a key, the type of the content and the content; `none` is an error, else the public URL.
-- Delete answers false on an error. A fault is what goes wrong outside the program.
pub record Storage : Type 1 where
  pub State : Type 0
  pub Fault : Type 0
  pub put : Fault → String → String → String → State → Option String × State
  pub delete : Fault → String → State → Bool × State
  -- What a reader of the key gets.
  pub holds : State → String → Option String

-- A call reaches no other object, and does what it says when it returns no error.
pub record IsLawful (S : Storage) : Type 0 where
  pub put_other :
      (f : S.Fault) (key content_type content other : String) (s : S.State)
      → (key == other) ≡ false
      → S.holds (S.put f key content_type content s).1 other ≡ S.holds s other
  pub put_stored :
      (f : S.Fault) (key content_type content url : String) (s : S.State)
      → (S.put f key content_type content s).0 ≡ some url
      → S.holds (S.put f key content_type content s).1 key ≡ some content
  pub delete_other :
      (f : S.Fault) (key other : String) (s : S.State)
      → (key == other) ≡ false
      → S.holds (S.delete f key s).1 other ≡ S.holds s other
  pub delete_gone :
      (f : S.Fault) (key : String) (s : S.State)
      → (S.delete f key s).0 ≡ true
      → S.holds (S.delete f key s).1 key ≡ none

-- The faults of local files: no directory, no file, or a copy that ends early, after `written`.
pub data LocalFault : Type 0 where
  works no_dir no_file : LocalFault
  cut_short : String → LocalFault

-- Files by their key. The keys of the program have no part that filepath.Join would clean.
unfoldable pub local_put :
    String → LocalFault → String → String → String → Dict String → Option String × Dict String
local_put base works key content_type content files =
    (some (trim_right_slash base <> "/" <> key), insert key content files)
local_put base no_dir key content_type content files = (none, files)
local_put base no_file key content_type content files = (none, files)
local_put base (cut_short written) key content_type content files = (none, insert key written files)

-- os.Remove fails on a file that is not there.
unfoldable pub local_delete : LocalFault → String → Dict String → Bool × Dict String
local_delete works key files = (is_some (lookup key files), remove key files)
local_delete _ key files = (false, files)

abbrev pub local_storage : String → Storage
local_storage base = record {
  State = Dict String;
  Fault = LocalFault;
  put = local_put base;
  delete = local_delete;
  holds = λ files key. lookup key files;
}

-- The address of the bucket.
pub record Bucket : Type 0 where
  pub host : String
  pub bucket : String
  pub region : String

unfoldable pub s3_url : Bucket → String → String
s3_url b key =
    if b.host == "s3.amazonaws.com"
    then "https://" <> b.bucket <> ".s3." <> b.region <> ".amazonaws.com/" <> key
    else (if has_prefix b.host "localhost" || has_prefix b.host "127.0.0.1"
        then "http"
        else "https")
      <> "://"
      <> b.host
      <> "/"
      <> b.bucket
      <> "/"
      <> key

-- The client of the bucket writes an object whole or not at all, and removing a missing object is
-- no error. The fault says whether the call fails.
unfoldable pub s3_put :
    Bucket
    → Bool
    → String
    → String
    → String
    → Dict (String × String)
    → Option String × Dict (String × String)
unfolding s3_url
s3_put b true key content_type content objects = (none, objects)
s3_put b false key content_type content objects =
    (some (s3_url b key), insert key (content_type, content) objects)

unfoldable pub s3_delete : Bool → String → Dict (String × String) → Bool × Dict (String × String)
s3_delete true key objects = (false, objects)
s3_delete false key objects = (true, remove key objects)

abbrev pub content_of : Option (String × String) → Option String
content_of none = none
content_of (some (content_type, content)) = some content

abbrev pub s3_storage : Bucket → Storage
s3_storage b = record {
  State = Dict (String × String);
  Fault = Bool;
  put = s3_put b;
  delete = s3_delete;
  holds = λ objects key. content_of (lookup key objects);
}

self : (s : String) → (s == s) ≡ true
self s = (eq_iff s s).1 refl

-- Local files are a lawful store.
pub local_storage-IsLawful : (base : String) → IsLawful (local_storage base)
unfolding local_put local_delete
local_storage-IsLawful base = record {
  put_other = put_other;
  put_stored = put_stored;
  delete_other = delete_other;
  delete_gone = delete_gone;
}
  where
    put_other :
        (f : LocalFault) (key content_type content other : String) (s : Dict String)
        → (key == other) ≡ false
        → lookup other (local_put base f key content_type content s).1 ≡ lookup other s
    put_other works key content_type content other s n =
        rw (lookup-insert key other content s, n) refl
    put_other no_dir key content_type content other s n = refl
    put_other no_file key content_type content other s n = refl
    put_other (cut_short w) key content_type content other s n =
        rw (lookup-insert key other w s, n) refl

    put_stored :
        (f : LocalFault) (key content_type content url : String) (s : Dict String)
        → (local_put base f key content_type content s).0 ≡ some url
        → lookup key (local_put base f key content_type content s).1 ≡ some content
    put_stored works key content_type content url s e =
        rw (lookup-insert key key content s, self key) refl
    put_stored no_dir key content_type content url s e = absurd (cc)
    put_stored no_file key content_type content url s e = absurd (cc)
    put_stored (cut_short w) key content_type content url s e = absurd (cc)

    delete_other :
        (f : LocalFault) (key other : String) (s : Dict String)
        → (key == other) ≡ false
        → lookup other (local_delete f key s).1 ≡ lookup other s
    delete_other works key other s n = rw (lookup-remove key other s, n) refl
    delete_other no_dir key other s n = refl
    delete_other no_file key other s n = refl
    delete_other (cut_short w) key other s n = refl

    delete_gone :
        (f : LocalFault) (key : String) (s : Dict String)
        → (local_delete f key s).0 ≡ true
        → lookup key (local_delete f key s).1 ≡ none
    delete_gone works key s e = rw (lookup-remove key key s, self key) refl
    delete_gone no_dir key s e = absurd (cc)
    delete_gone no_file key s e = absurd (cc)
    delete_gone (cut_short w) key s e = absurd (cc)

-- A bucket is a lawful store.
pub s3_storage-IsLawful : (b : Bucket) → IsLawful (s3_storage b)
unfolding s3_put s3_delete
s3_storage-IsLawful b = record {
  put_other = put_other;
  put_stored = put_stored;
  delete_other = delete_other;
  delete_gone = delete_gone;
}
  where
    put_other :
        (f : Bool) (key content_type content other : String) (s : Dict (String × String))
        → (key == other) ≡ false
        → content_of (lookup other (s3_put b f key content_type content s).1)
          ≡ content_of (lookup other s)
    put_other true key content_type content other s n = refl
    put_other false key content_type content other s n =
        rw (lookup-insert key other (content_type, content) s, n) refl

    put_stored :
        (f : Bool) (key content_type content url : String) (s : Dict (String × String))
        → (s3_put b f key content_type content s).0 ≡ some url
        → content_of (lookup key (s3_put b f key content_type content s).1) ≡ some content
    put_stored true key content_type content url s e = absurd (cc)
    put_stored false key content_type content url s e =
        rw (lookup-insert key key (content_type, content) s, self key) refl

    delete_other :
        (f : Bool) (key other : String) (s : Dict (String × String))
        → (key == other) ≡ false
        → content_of (lookup other (s3_delete f key s).1) ≡ content_of (lookup other s)
    delete_other true key other s n = refl
    delete_other false key other s n = rw (lookup-remove key other s, n) refl

    delete_gone :
        (f : Bool) (key : String) (s : Dict (String × String))
        → (s3_delete f key s).0 ≡ true
        → content_of (lookup key (s3_delete f key s).1) ≡ none
    delete_gone true key s e = absurd (cc)
    delete_gone false key s e = rw (lookup-remove key key s, self key) refl
