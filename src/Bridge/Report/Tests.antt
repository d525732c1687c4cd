-- ===== src/Bridge/Report/Tests.antt =====
-- internal/bridge/bridge.go: texts of the statistics.
use xbslink_ng.Base.{◌≡◌, ℕ, refl, codes, decimal, digits, padded}
use xbslink_ng.Bridge.Report.{format_number, format_bytes, Verbs}

million : format_number 1_234_567 ≡ codes "1,234,567"
unfolding format_number decimal digits padded
million = refl

-- Above 999,999,999 the first group has more than three digits.
billion : format_number 5_000_000_000 ≡ codes "5000,000,000"
unfolding format_number decimal digits padded
billion = refl

abbrev verbs : Verbs
verbs = record { one_decimal = λ (a b : ℕ). codes "x.y"; rounded = λ (d : ℕ). codes "z" }

kilobytes : format_bytes verbs 2_047 ≡ codes "1 KB"
unfolding format_bytes decimal digits
kilobytes = refl
