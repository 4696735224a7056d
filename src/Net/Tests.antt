-- ===== src/Net/Tests.antt =====
-- Runs of the parsers on texts.
use aws_net_hound.Base.{◌≡◌, refl, none, some}
use aws_net_hound.Net.{v4, v6, codes, parse_ip_addr, parse_u32, split_once}

v4_texts :
    (parse_ip_addr (codes "10.1.2.3") ≡ some (v4 0x0a01_0203))
    × (parse_ip_addr (codes "10.1.2") ≡ none)
    × (parse_ip_addr (codes "10.1.2.256") ≡ none)
    × (parse_ip_addr (codes "10.01.2.3") ≡ none)
    × (parse_ip_addr (codes "10.1.2.3 ") ≡ none)
unfolding parse_ip_addr
v4_texts = (refl, refl, refl, refl, refl)

v6_texts :
    (parse_ip_addr (codes "2001:db8::1") ≡ some (v6 0x2001_0db8_0000_0000_0000_0000_0000_0001))
    × (parse_ip_addr (codes "::") ≡ some (v6 0))
    × (parse_ip_addr (codes "::ffff:10.1.2.3") ≡ some (v6 0xffff_0a01_0203))
    × (parse_ip_addr (codes "1:2:3:4:5:6:7:8:9") ≡ none)
    × (parse_ip_addr (codes "1:2:3:4:5:6:7") ≡ none)
unfolding parse_ip_addr
v6_texts = (refl, refl, refl, refl, refl)

numbers :
    (parse_u32 (codes "+32") ≡ some 32)
    × (parse_u32 (codes "4294967296") ≡ none)
    × (parse_u32 (codes "-1") ≡ none)
    × (parse_u32 (codes "") ≡ none)
unfolding parse_u32
numbers = (refl, refl, refl, refl)

one_slash : split_once b'/' (codes "a/b/c") ≡ some (codes "a", codes "b/c")
unfolding split_once
one_slash = refl
