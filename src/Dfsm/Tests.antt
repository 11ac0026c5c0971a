-- ===== src/Dfsm/Tests.antt =====
-- The theorems on the messages at inputs that meet their hypotheses.
use pve_cluster.Dfsm.Fuse
use pve_cluster.Dfsm.Fuse.{FuseMessage, rename, fuse_message}
use pve_cluster.Dfsm.Fuse.RoundTrip
use pve_cluster.Dfsm.Fuse.RoundTrip.{deserialize-serialize_fuse, fuse_message-IsLawful}
use pve_cluster.Dfsm.KvStore
use pve_cluster.Dfsm.KvStore.{KvStoreMessage, log, kv_store_message}
use pve_cluster.Dfsm.KvStore.RoundTrip.{IsLogText, deserialize-serialize_kv}
use pve_cluster.Dfsm.KvStore.Panics.{IsWellSized, deserialize_safe}
use pve_cluster.Dfsm.Message.{received, panicked}
use pve_cluster.Dfsm.Protocol
use pve_cluster.Dfsm.Protocol.RoundTrip.{deserialize-serialize_dfsm}
use pve_cluster.Bytes.{Bytes, to_le, from_le}
use pve_cluster.Bytes.Slices.{slice, get_le}
use pve_cluster.Prelude.{◌≢◌, replicate, refl, some, [], ◌∷◌, ◌++◌, ◌≡◌, arith}
use pve_cluster.Bytes.{codes}
use pve_cluster.Bytes.Utf8.{lead, next, utf8_from, is_utf8}
use pve_cluster.Dfsm.Wire.{CFuseMessage, parsed, parse, serialize}
use pve_cluster.Dfsm.Wire.RoundTrip.{IsSendable, IsText, parse-serialize}

abbrev moved : CFuseMessage
moved = record {
  size = 2;
  offset = 7;
  flags = 1;
  path = codes "/a";
  to = some (codes "/b");
  content = 5 ∷ 6 ∷ [];
}

a-IsText : IsText (codes "/a")
unfolding lead next utf8_from is_utf8
a-IsText = (refl, ((λ h. omega (arith, h)), ((λ h. omega (arith, h)), tt)))

b-IsText : IsText (codes "/b")
unfolding lead next utf8_from is_utf8
b-IsText = (refl, ((λ h. omega (arith, h)), ((λ h. omega (arith, h)), tt)))

moved-IsSendable : IsSendable moved
moved-IsSendable = record {
  size = refl;
  offset = omega arith;
  flags = omega arith;
  path = a-IsText;
  to = b-IsText;
  fits = omega arith;
}

parse-serialize_example : parse (serialize moved ++ (9 ∷ [])) ≡ parsed moved
parse-serialize_example = parse-serialize moved (9 ∷ []) moved-IsSendable

abbrev renamed : FuseMessage
renamed = rename (codes "/a") (codes "/b")

deserialize-serialize_fuse_example :
    Fuse.deserialize 4 (fuse_message.serialize renamed) ≡ received renamed
deserialize-serialize_fuse_example =
    deserialize-serialize_fuse renamed ((a-IsText, omega arith), b-IsText)

abbrev logged : KvStoreMessage
logged = log (record {
  time = 7;
  priority = 6;
  node = codes "/a";
  ident = codes "/b";
  tag = [];
  message = codes "/a";
})

a-IsLogText : IsLogText (codes "/a")
a-IsLogText = (a-IsText.0, omega arith)

b-IsLogText : IsLogText (codes "/b")
b-IsLogText = (b-IsText.0, omega arith)

empty-IsLogText : IsLogText []
unfolding utf8_from is_utf8
empty-IsLogText = (refl, omega arith)

logged-IsSendable : KvStore.RoundTrip.IsSendable logged
logged-IsSendable = record {
  time = omega arith;
  priority = omega arith;
  node = a-IsLogText;
  ident = b-IsLogText;
  tag = empty-IsLogText;
  message = a-IsLogText;
}

deserialize-serialize_kv_example :
    KvStore.deserialize 3 (kv_store_message.serialize logged) ≡ received logged
deserialize-serialize_kv_example = deserialize-serialize_kv logged logged-IsSendable

-- A log entry of the shortest texts.
abbrev shortest : Bytes
shortest =
    replicate 8 0 ++ (to_le 4 1 ++ (to_le 4 1 ++ (to_le 4 1 ++ (to_le 4 1 ++ replicate 4 0))))

shortest-IsWellSized : IsWellSized shortest
unfolding to_le get_le slice from_le
shortest-IsWellSized = record {
  header = omega arith;
  node = λ e. omega (arith, e);
  ident = λ e. omega (arith, e);
  tag = λ e. omega (arith, e);
  message = λ e. omega (arith, e);
}

deserialize_safe_example : KvStore.deserialize 3 shortest ≢ panicked
deserialize_safe_example = deserialize_safe 3 shortest shortest-IsWellSized

deserialize-serialize_dfsm_example :
    Protocol.deserialize fuse_message
      (Protocol.serialize fuse_message 9 (Protocol.normal 1 2 3 renamed))
    ≡ received (Protocol.normal 1 2 3 renamed)
deserialize-serialize_dfsm_example =
    deserialize-serialize_dfsm fuse_message Fuse.RoundTrip.IsSendable fuse_message-IsLawful 9
      (Protocol.normal 1 2 3 renamed)
      ((omega arith, (omega arith, omega arith)), ((a-IsText, omega arith), b-IsText))
