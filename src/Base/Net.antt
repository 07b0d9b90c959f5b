-- ===== src/Base/Net.antt =====
-- `net.IP` of the standard library: an address is its 4 or 16 bytes, and the empty list is nil.
use mathlib.Core.Bool.{◌&&◌}
use mathlib.Core.List.{[], ◌∷◌, ◌++◌}
use mathlib.Core.Option.{Option, none, some}
use cozyplane.Base.Tests.{◌==◌, if◌then◌else◌}
use cozyplane.Base.Lists.{length, take, drop, replicate}
use cozyplane.Base.Strings.{Bytes, str_eq}

-- The first twelve bytes of an IPv4 address in its 16-byte form.
abbrev pub v4_in_v6_prefix : Bytes
v4_in_v6_prefix = replicate 10 0 ++ 255 ∷ 255 ∷ []

-- `IP.To4`; nil is `none`.
unfoldable pub to4 : Bytes → Option Bytes
to4 ip =
    if length ip == 4
    then some ip
    else if length ip == 16 && str_eq (take 12 ip) v4_in_v6_prefix
    then some (drop 12 ip)
    else none

-- `IP.To16`; nil is the empty list.
unfoldable pub to16 : Bytes → Bytes
to16 ip = if length ip == 4 then v4_in_v6_prefix ++ ip else if length ip == 16 then ip else []
