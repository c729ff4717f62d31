-- ===== src/Tests/Flags.antt =====
-- main.go
use skytap.Common.{◌≡◌, refl, true, inl, inr}
use skytap.Text.{split_on, codes, trim_space, is_ascii, trim_left, trim_right}
use skytap.Disk.{mkdir_all}
use skytap.Flags.{split_csv, trimmed_parts}
use skytap.Flags.Start.{IsOneOf}
use skytap.Tests.Samples.{ascii_only, api, disk}

is_named : IsOneOf api (split_csv ascii_only (codes "x.test, api.test"))
unfolding split_csv split_on trimmed_parts trim_space is_ascii trim_left trim_right
is_named = inr (inl refl)

writable : mkdir_all disk (codes "/data") ≡ true
unfolding mkdir_all
writable = refl
