-- ===== src/Artifacts/Range.antt =====
-- packages/agent/src/artifacts/artifact-range.ts: one byte range of a stored artifact.
pub mod Bounds
use Prim.Native.Char.{code}
use Prim.Native.String
use Prim.Native.String.{◌++◌}
use firemig.Prelude.{
  ℕ, ◌+◌, ◌-◌, ◌*◌, String, Bool, true, false, not, ◌&&◌, ◌||◌, Option, none, some, List, [], ◌∷◌,
  ltb, leb, ◌==◌, ◌===◌, min, if◌then◌else◌,
}
use firemig.Common.Errors.{Thrown, plain, firemig_error, artifact_range_invalid}
use firemig.Common.Types.{FilePath, ArtifactDescriptor}
use firemig.Exec.{
  Settled, fulfilled, rejected, reject_if, Exec, pure, gets, lift, refuse, ◌>>=◌, ◌>>◌,
}
use firemig.Platform.Decimal.{decimal}
use firemig.Platform.Paths.{is_safe_integer}
use firemig.Platform.Host.{Host, stat, perform}

pub record ArtifactRange : Type 0 where
  pub start : ℕ
  pub end : ℕ

abbrev range_error : Thrown
range_error = firemig_error artifact_range_invalid false (some 416)

abbrev is_digit : ℕ → Bool
is_digit c = leb b'0' c && leb c b'9'

-- The longest prefix of digits, as the number it stands for, and whether there was one.
unfoldable pub read_digits : ℕ → Bool → String → Bool × ℕ × String
read_digits n seen String.[] = (seen, n, String.[])
read_digits n seen (String.◌∷◌ c rest) =
    let more = read_digits (n * 10 + (code c - b'0')) true rest in
    if is_digit (code c) then more else (seen, n, String.◌∷◌ c rest)

-- A text behind a prefix.
unfoldable pub strip_prefix : String → String → Option String
strip_prefix String.[] s = some s
strip_prefix (String.◌∷◌ p ps) String.[] = none
strip_prefix (String.◌∷◌ p ps) (String.◌∷◌ c s) =
    let rest = strip_prefix ps s in if code p == code c then rest else none

-- Behind the dash: no digits stand for the last byte, and nothing may follow the digits.
unfoldable pub match_end : ℕ → Bool × ℕ × String → Option (ℕ × Option ℕ)
match_end start (seen, n, String.[]) = some (start, if seen then some n else none)
match_end start (seen, n, String.◌∷◌ _ _) = none

unfoldable pub match_dash : Bool × ℕ × String → Option (ℕ × Option ℕ)
match_dash (false, n, rest) = none
match_dash (true, n, String.[]) = none
match_dash (true, n, String.◌∷◌ c rest) =
    if code c == b'-' then match_end n (read_digits 0 false rest) else none

abbrev match_start : Option String → Option (ℕ × Option ℕ)
match_start none = none
match_start (some rest) = match_dash (read_digits 0 false rest)

-- /^bytes=(\d+)-(\d*)$/
unfoldable pub match_range : String → Option (ℕ × Option ℕ)
match_range header = match_start (strip_prefix "bytes=" header)

abbrev end_or_last : Option ℕ → ℕ → ℕ
end_or_last none size = size - 1
end_or_last (some requested) size = requested

unfoldable pub check_range : Option (ℕ × Option ℕ) → ℕ → Settled (Option ArtifactRange)
check_range none size = rejected range_error
check_range (some (start, requested)) size =
    let requested_end = end_or_last requested size in
    if not (is_safe_integer start)
      || (not (is_safe_integer requested_end) || (leb size start || ltb requested_end start))
    then rejected range_error
    else fulfilled (some (record { start = start; end = min requested_end (size - 1) }))

unfoldable pub parse_range_header : Option String → ℕ → Settled (Option ArtifactRange)
parse_range_header none size = fulfilled none
parse_range_header (some header) size = check_range (match_range header) size

-- What is served: the body is the bytes from `start` up to `after` of the file at `path`, where
-- `after` is one more than the code's `end`.
pub record ArtifactServeResult : Type 0 where
  pub status : ℕ
  pub content_length : ℕ
  pub x_artifact_sha256 : String
  pub content_range : Option String
  pub path : FilePath
  pub start : ℕ
  pub after : ℕ

-- The answer, where the stream can be opened (see `is_negative_end`).
unfoldable pub serve_range :
    FilePath → ArtifactDescriptor → ℕ → Option ArtifactRange → ArtifactServeResult
serve_range path descriptor size none = record {
  status = 200;
  content_length = size;
  x_artifact_sha256 = descriptor.sha256;
  content_range = none;
  path = path;
  start = 0;
  after = size;
}
serve_range path descriptor size (some range) = record {
  status = 206;
  content_length = range.end - range.start + 1;
  x_artifact_sha256 = descriptor.sha256;
  content_range =
      some ("bytes " ++ decimal range.start ++ "-" ++ decimal range.end ++ "/" ++ decimal size);
  path = path;
  start = range.start;
  after = range.end + 1;
}

-- `createReadStream` throws ERR_OUT_OF_RANGE for the `end` of an empty file, which is -1.
abbrev pub is_negative_end : ℕ → Option ArtifactRange → Bool
is_negative_end size none = size == 0
is_negative_end size (some range) = false

unfoldable pub open_artifact_range :
    FilePath → ArtifactDescriptor → Option String → Exec Host ArtifactServeResult
open_artifact_range path descriptor header = do
  perform (stat path)
  size ← gets (λ h. h.world.size h.trace path)
  is_file ← gets (λ h. h.world.is_file h.trace path)
  refuse (not is_file || not (size == descriptor.size))
      (plain "Artifact changed after manifest creation")
  range ← lift (parse_range_header header size)
  refuse (is_negative_end size range) (plain "ERR_OUT_OF_RANGE")
  pure (serve_range path descriptor size range)
