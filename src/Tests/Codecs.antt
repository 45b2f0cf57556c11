-- ===== src/Tests/Codecs.antt =====
-- A codec of cursors and a codec of parts, each with the law that it reads back what it writes.
use ponta_drive_api.Base.{
  ℕ, Bool, true, false, ◌==◌, if◌then◌else◌, zero, suc, ◌≡◌, refl, ap, Option, none, some, List, [],
  ◌∷◌, ◌++◌, length, take, drop, append-nil,
}
use ponta_drive_api.Base.Int.{ℤ, pos, negsuc}
use ponta_drive_api.Base.Text.{Text}
use ponta_drive_api.Models.{CompletedPart, S3Credentials}
use ponta_drive_api.Listing.{DriveCursor}
use ponta_drive_api.Listing.Query.{CursorCodec, CursorCodecLaws}
use ponta_drive_api.Upload.Parts.{PartsCodec, PartsCodecLaws}

-- A text behind its length.
unpack : {C : Type 0} → Text → (Text → Text → C) → C → C
unpack [] k d = d
unpack (n ∷ t) k d = k (take n t) (drop n t)

take-prefix : (s t : Text) → take (length s) (s ++ t) ≡ s
take-prefix [] t = refl
take-prefix (c ∷ s) t = ap (λ u. c ∷ u) (take-prefix s t)

drop-prefix : (s t : Text) → drop (length s) (s ++ t) ≡ t
drop-prefix [] t = refl
drop-prefix (c ∷ s) t = drop-prefix s t

abbrev packed : Text → Text → Text
packed s t = length s ∷ (s ++ t)

abbrev cursor_from : ℕ → Text → Text → Text → Text → DriveCursor
cursor_from id type_ value sort order = record {
  type_ = type_;
  value = value;
  id = id;
  sort = sort;
  order = order;
}

pub read_cursor : Text → Option DriveCursor
unfolding unpack
read_cursor [] = none
read_cursor (id ∷ t) =
    unpack t
      (λ type_ rest.
        unpack rest
          (λ value rest'.
            unpack rest' (λ sort order. some (cursor_from id type_ value sort order)) none)
          none)
      none

abbrev pub small_codec : CursorCodec
small_codec = record {
  encode = λ c. some (c.id ∷ packed c.type_ (packed c.value (packed c.sort c.order)));
  decode = read_cursor;
}

pub small_codec-CursorCodecLaws : CursorCodecLaws small_codec
unfolding read_cursor unpack
small_codec-CursorCodecLaws = record {
  round_trip = λ c. (
    c.id ∷ packed c.type_ (packed c.value (packed c.sort c.order)),
    refl,
    rw (take-prefix c.type_ (packed c.value (packed c.sort c.order))) (
        rw (drop-prefix c.type_ (packed c.value (packed c.sort c.order))) (
          rw (take-prefix c.value (packed c.sort c.order)) (
            rw (drop-prefix c.value (packed c.sort c.order))
              (rw (take-prefix c.sort c.order) (rw (drop-prefix c.sort c.order) refl))))),
    refl,
  );
}

-- Credentials as packed texts.
pub write_credentials : S3Credentials → Text
write_credentials c = packed c.endpoint (
    packed c.bucket (
      packed c.region (
        packed c.access_key_id (
          packed c.secret_access_key
            (packed c.public_url (if c.use_path_style then 1 ∷ [] else 0 ∷ []))))))

is_one : Text → Bool
is_one [] = false
is_one (n ∷ t) = n == 1

pub read_credentials : Text → Option S3Credentials
unfolding unpack is_one
read_credentials t =
    unpack t
      (λ endpoint t1.
        unpack t1
          (λ bucket t2.
            unpack t2
              (λ region t3.
                unpack t3
                  (λ key t4.
                    unpack t4
                      (λ secret t5.
                        unpack t5
                          (λ public_url flag. some (record {
                            endpoint = endpoint;
                            bucket = bucket;
                            region = region;
                            access_key_id = key;
                            secret_access_key = secret;
                            use_path_style = is_one flag;
                            public_url = public_url;
                          }))
                          none)
                      none)
                  none)
              none)
          none)
      none

unpack-packed :
    {C : Type 0} (s t : Text) (k : Text → Text → C) (d : C) → unpack (packed s t) k d ≡ k s t
unfolding unpack
unpack-packed s t k d = rw (take-prefix s t) (rw (drop-prefix s t) refl)

flag_read : (b : Bool) → is_one (if b then 1 ∷ [] else 0 ∷ []) ≡ b
unfolding is_one
flag_read true = refl
flag_read false = refl

pub read-write_credentials : (c : S3Credentials) → read_credentials (write_credentials c) ≡ some c
unfolding read_credentials write_credentials
read-write_credentials c = rw unpack-packed (
    rw unpack-packed (
      rw unpack-packed (
        rw unpack-packed
          (rw unpack-packed (rw unpack-packed (rw (flag_read c.use_path_style) refl))))))

-- Parts as words behind separators: a 0 before each, its characters raised by one.
write_word : Text → Text → Text
write_word [] t = t
write_word (c ∷ s) t = suc c ∷ write_word s t

word_of : ℤ → Text → Text
word_of (pos n) etag = 0 ∷ n ∷ etag
word_of (negsuc n) etag = 1 ∷ n ∷ etag

part_of : Text → CompletedPart
part_of [] = record { part_number = pos 0; etag = [] }
part_of (sign ∷ []) = record { part_number = pos 0; etag = [] }
part_of (zero ∷ n ∷ etag) = record { part_number = pos n; etag = etag }
part_of (suc sign ∷ n ∷ etag) = record { part_number = negsuc n; etag = etag }

pub write_parts : List CompletedPart → Text
unfolding write_word word_of
write_parts [] = []
write_parts (p ∷ ps) = 0 ∷ write_word (word_of p.part_number p.etag) (write_parts ps)

-- The open word, and the parts behind it.
pub read_parts : Text → Text × List CompletedPart
unfolding part_of
read_parts [] = ([], [])
read_parts (zero ∷ t) = let (word, ps) = read_parts t in ([], part_of word ∷ ps)
read_parts (suc c ∷ t) = let (word, ps) = read_parts t in (c ∷ word, ps)

read_parts-write_word :
    (s t : Text) → read_parts (write_word s t) ≡ (s ++ (read_parts t).0, (read_parts t).1)
unfolding read_parts write_word
read_parts-write_word [] t = refl
read_parts-write_word (c ∷ s) t = ap (λ r. (c ∷ r.0, r.1)) (read_parts-write_word s t)

part_of-word_of :
    (z : ℤ) (etag : Text) → part_of (word_of z etag ++ []) ≡ record { part_number = z; etag = etag }
unfolding part_of word_of
part_of-word_of (pos n) etag = rw (append-nil etag) refl
part_of-word_of (negsuc n) etag = rw (append-nil etag) refl

read_parts-write_parts : (ps : List CompletedPart) → read_parts (write_parts ps) ≡ ([], ps)
unfolding read_parts write_parts
read_parts-write_parts [] = refl
read_parts-write_parts (p ∷ ps) =
    rw (read_parts-write_word (word_of p.part_number p.etag) (write_parts ps)) (
      rw (read_parts-write_parts ps)
        (ap (λ q. ([], q ∷ ps)) (part_of-word_of p.part_number p.etag)))

abbrev pub small_parts : PartsCodec
small_parts = record {
  marshal = λ ps. some (1 ∷ write_parts ps);
  unmarshal = λ t. some (read_parts t).1;
}

pub small_parts-PartsCodecLaws : PartsCodecLaws small_parts
unfolding read_parts
small_parts-PartsCodecLaws = record {
  round_trip =
      λ ps plain. (1 ∷ write_parts ps, refl, ap (λ r. some r.1) (read_parts-write_parts ps), refl);
  reads_empty = refl;
}
