-- ===== src/Tests/Pool.antt =====
-- A pool that two users share, with a `repr` and a digest that can be run.
use py_xroot_dclient.Crypto.Sigver.{elem}
use py_xroot_dclient.Session.Pool.Accounts.{
  idle_count, found_count, closed_count, acquire-accounts, release-accounts,
}
use py_xroot_dclient.Session.Pool.Bounds.{AtMost, after-AtMost}
use py_xroot_dclient.Base.{
  List, Bytes, arith, [], ◌≡◌, ℕ, All, none, ap, false, ◌∷◌, ◌≢◌, suc, refl, true, count, ◌+◌,
  if◌then◌else◌,
}
use py_xroot_dclient.Session.Identity.{
  Value, no_value, text, texts, flag, IsRepr, key_of, identity, digested, identity_values,
  join_rest,
}
use py_xroot_dclient.Session.Pool.History.{
  PoolCall, call_release, after, perform, acquire_same_party, GivenBack,
}
use py_xroot_dclient.Session.World.{is_closed, Key, World, bucket_of, close_all, put_bucket, key_eq}
use py_xroot_dclient.Session.Pool.{acquire, release, pop_live, expired, add_entry, current}
use py_xroot_dclient.Config.{Config}
use py_xroot_dclient.Url.{XRootDUrl, use_tls}
use py_xroot_dclient.Base.Text.{codes}
use py_xroot_dclient.Base.Int.{pos}

-- A text above 1, closed by 1.
abbrev line : Bytes → Bytes → Bytes
line [] rest = 1 ∷ rest
line (x ∷ b) rest = suc (suc x) ∷ line b rest

abbrev lines : List Bytes → Bytes
lines [] = []
lines (b ∷ bs) = line b (lines bs)

abbrev pub plain_repr : Value → Bytes
plain_repr no_value = 1 ∷ []
plain_repr (text b) = 2 ∷ line b []
plain_repr (texts bs) = 3 ∷ lines bs
plain_repr (flag true) = 4 ∷ []
plain_repr (flag false) = 5 ∷ []

line-injective : (b c r q : Bytes) → line b r ≡ line c q → (b ≡ c) × (r ≡ q)
line-injective [] [] r q e = (refl, cc)
line-injective [] (y ∷ c) r q e = grind arith
line-injective (x ∷ b) [] r q e = grind arith
line-injective (x ∷ b) (y ∷ c) r q e = let t = line-injective b c r q (cc) in (cc, t.1)

lines-injective : (bs cs : List Bytes) → lines bs ≡ lines cs → bs ≡ cs
lines-injective [] [] e = refl
lines-injective [] ([] ∷ cs) e = cc
lines-injective [] ((x ∷ c) ∷ cs) e = cc
lines-injective ([] ∷ bs) [] e = cc
lines-injective ((x ∷ b) ∷ bs) [] e = cc
lines-injective (b ∷ bs) (c ∷ cs) e =
    let t = line-injective b c (lines bs) (lines cs) e in
    let later = lines-injective bs cs t.1 in let same = t.0 in cc

abbrev NoNul : Bytes → Type 0
NoNul = All (λ (b : ℕ). b ≢ 0)

line-NoNul : (b r : Bytes) → NoNul r → NoNul (line b r)
line-NoNul [] r h = (omega arith, h)
line-NoNul (x ∷ b) r h = (omega arith, line-NoNul b r h)

lines-NoNul : (bs : List Bytes) → NoNul (lines bs)
lines-NoNul [] = tt
lines-NoNul (b ∷ bs) = line-NoNul b (lines bs) (lines-NoNul bs)

plain_repr-NoNul : (v : Value) → NoNul (plain_repr v)
plain_repr-NoNul no_value = (omega arith, tt)
plain_repr-NoNul (text b) = (omega arith, line-NoNul b [] tt)
plain_repr-NoNul (texts bs) = (omega arith, lines-NoNul bs)
plain_repr-NoNul (flag true) = (omega arith, tt)
plain_repr-NoNul (flag false) = (omega arith, tt)

-- The number in front of the text of a value.
abbrev kind_of : Bytes → ℕ
kind_of [] = 0
kind_of (b ∷ bs) = b

plain_repr-injective : (v w : Value) → plain_repr v ≡ plain_repr w → v ≡ w
plain_repr-injective no_value no_value e = refl
plain_repr-injective (text b) (text c) e = ap text (line-injective b c [] [] (cc)).0
plain_repr-injective (texts bs) (texts cs) e = ap texts (lines-injective bs cs (cc))
plain_repr-injective (flag true) (flag true) e = refl
plain_repr-injective (flag false) (flag false) e = refl
plain_repr-injective (flag true) (flag false) e = cc
plain_repr-injective (flag false) (flag true) e = cc
plain_repr-injective no_value (text c) e = cc
plain_repr-injective no_value (texts c) e = cc
plain_repr-injective no_value (flag true) e = cc
plain_repr-injective no_value (flag false) e = cc
plain_repr-injective (text b) no_value e = cc
plain_repr-injective (text b) (texts c) e = cc
plain_repr-injective (text b) (flag true) e = cc
plain_repr-injective (text b) (flag false) e = cc
plain_repr-injective (texts b) no_value e = cc
plain_repr-injective (texts b) (text c) e = cc
plain_repr-injective (texts b) (flag true) e = cc
plain_repr-injective (texts b) (flag false) e = cc
plain_repr-injective (flag true) no_value e = cc
plain_repr-injective (flag false) no_value e = cc
plain_repr-injective (flag true) (text c) e = cc
plain_repr-injective (flag false) (text c) e = cc
plain_repr-injective (flag true) (texts c) e = cc
plain_repr-injective (flag false) (texts c) e = cc

abbrev plain_repr-IsRepr : IsRepr plain_repr
plain_repr-IsRepr = record { no_nul = plain_repr-NoNul; tells = plain_repr-injective }

-- A digest that takes no two texts to one.
abbrev pub plain_digest : Bytes → Bytes
plain_digest b = b

abbrev settings : Bytes → Config
settings name = record {
  username = name;
  connect_retries = pos 3;
  retry_backoff = 1;
  redirect_limit = pos 16;
  wait_cap = 60;
  pool_size = pos 2;
  pool_idle_ttl = 10;
  token = none;
  token_file = none;
  keytab = none;
  proxy = none;
  ca_path = none;
  ca_file = none;
  auth_order = codes "ztn" ∷ [];
  verify_tls = true;
  require_tls = false;
  chunk_size = 4;
  data_streams = pos 2;
  max_read_size = pos 100;
  recover_handles = true;
}

abbrev pub server : XRootDUrl
server = record {
  scheme = codes "root";
  host = codes "h";
  port = pos 1094;
  path = codes "/f";
  username = [];
  password = [];
  query = [];
}

abbrev pub ann : Config
ann = settings (codes "ann")

abbrev bob : Config
bob = settings (codes "bob")

-- Bob's connection is the newer one.
abbrev shared_use : List PoolCall
shared_use = call_release server bob 2 2 8 ∷ call_release server ann 1 1 7 ∷ []

abbrev pub ann_key : Key
ann_key = record {
  scheme = codes "root";
  host = codes "h";
  port = pos 1094;
  identity = codes "ann";
}

-- Session 6 is too old to be handed out at 13, session 5 is closed.
abbrev pub filled : World
filled = record { idle = (ann_key, (9, 5) ∷ (2, 6) ∷ []) ∷ []; closed = 5 ∷ [] }

acquire_same_party_example :
    GivenBack server ann 7 shared_use
    × (is_closed (after plain_repr plain_digest shared_use) 7 ≡ false)
unfolding acquire after perform pop_live bucket_of release is_closed close_all expired put_bucket
    key_eq key_of use_tls identity digested identity_values join_rest add_entry current elem
acquire_same_party_example =
    acquire_same_party plain_repr plain_digest server ann plain_repr-IsRepr shared_use 3 7
      ((λ e. e), ((λ e. e), tt)) refl

after-AtMost_example : AtMost 2 (after plain_repr plain_digest shared_use)
after-AtMost_example =
    after-AtMost 2 plain_repr plain_digest shared_use (omega arith, (omega arith, tt))

acquire-accounts_example :
    idle_count 6 filled
    ≡ found_count 6 (acquire ann 13 ann_key filled).0
      + idle_count 6 (acquire ann 13 ann_key filled).1
      + closed_count 6 (acquire ann 13 ann_key filled).1
unfolding is_closed elem
acquire-accounts_example = acquire-accounts 6 ann 13 ann_key filled refl

release-accounts_example :
    count 6 (8 ∷ []) + idle_count 6 filled
    ≡ (if (release ann 13 13 ann_key 8 filled).0 then 0 else count 6 (8 ∷ []))
      + idle_count 6 (release ann 13 13 ann_key 8 filled).1
      + closed_count 6 (release ann 13 13 ann_key 8 filled).1
unfolding is_closed elem
release-accounts_example = release-accounts 6 ann 13 13 ann_key 8 filled refl
