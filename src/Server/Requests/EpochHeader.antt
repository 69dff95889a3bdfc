-- ===== src/Server/Requests/EpochHeader.antt =====
-- packages/agent/src/server/server-requests.ts: epochs in headers.
use firemig.Prelude.{ℕ, ◌≡◌, refl, some, if◌then◌else◌}
use firemig.Exec.{fulfilled, rejected}
use firemig.Platform.Decimal.{decimal}
use firemig.Platform.Decimal.Values.{decimal-ne-empty, value-decimal, all_digits-decimal}
use firemig.Platform.Paths.{is_safe_integer}
use firemig.Server.Requests.{epoch_of_header, bad_request_error}

-- An epoch that is written in decimal digits into the header is read back as it was, up to the
-- greatest safe integer; a greater one is refused with 400.
pub epoch_of_header-decimal :
    (n : ℕ)
    → epoch_of_header (some (decimal n))
      ≡ (if is_safe_integer n then fulfilled n else rejected bad_request_error)
unfolding epoch_of_header
epoch_of_header-decimal n = rw (decimal-ne-empty n, all_digits-decimal n, value-decimal n) refl
