-- ===== src/CsSquirrel/Packet/Answers.antt =====
-- The chains of calls by which the connections write a packet over their scratch buffer
-- (haysel/cs_squirrel/src/server/mech.rs and client/mech.rs).
use hayselnut.Common.{ℕ, List, Option, none, some, Outcome, returns, panics, ◌>>=◌}
use hayselnut.Squirrel.Wire.{ByteOrder}
use hayselnut.CsSquirrel.Uid.{Uid}
use hayselnut.CsSquirrel.Packet.{
  CmdKind, unwrap, new, with_packet, with_responding_to, write_cmd, write_frame_with,
}

abbrev pub unwrap_option : {A : Type 0} → Option A → Outcome A
unwrap_option (some a) = returns a
unwrap_option none = panics

module _ (order : ByteOrder) where
  -- `packet::Write::new(scratch).unwrap().with_packet(..).with_responding_to(..)`
  unfoldable pub write_head : Uid → Uid → List ℕ → Outcome (List ℕ)
  write_head pkid responding_to scratch = do
    inner ← unwrap_option (new order scratch)
    named ← with_packet order pkid inner
    with_responding_to order responding_to named

  unfoldable pub send_cmd : Uid → Uid → CmdKind → List ℕ → Outcome (List ℕ)
  send_cmd pkid responding_to kind scratch = do
    write ← write_head pkid responding_to scratch
    unwrap (write_cmd order kind write)

  unfoldable pub send_data : Uid → Uid → List ℕ → List ℕ → Outcome (List ℕ)
  send_data pkid responding_to bytes scratch = do
    write ← write_head pkid responding_to scratch
    written ← write_frame_with order bytes write
    unwrap written
