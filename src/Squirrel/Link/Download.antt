-- ===== src/Squirrel/Link/Download.antt =====
-- `mvp_recv` against `ClientInterface::handle` over the lossy link: the queued data arrives whole.
use hayselnut.Common.{ℕ, ◌+◌, ◌^◌, ◌≤◌, ◌<◌, ◌≡◌, List}
use hayselnut.Squirrel.Server.{ClientInterface, DispatchEvent, theoretically_done_sending}
use hayselnut.Squirrel.Server.Sending.{TakesConfirms}
use hayselnut.Squirrel.Shared.{finished, Run}
use hayselnut.Squirrel.Link.{Link}
use hayselnut.Squirrel.Link.Exchange.{link, idle, Exchange, plan}

-- The server is in a transfer that the client goes on to confirm.
pub record InTransfer (lo hi : ℕ) (c : ClientInterface) : Type 0 where
  pub generated : c.last_sent ≡ c.uid_gen
  pub last_u32 : c.last_sent < 2 ^ 32
  pub started : lo ≤ c.transaction_time
  pub patient : hi ≤ lo + c.max_transaction_time
  pub takes : TakesConfirms c.state

-- A run that ends with the value, where the application has been told of nothing and the server is at
-- rest with its queue as it was. Some of the planned exchanges may be left over.
abbrev pub Fetches : {A : Type 0} → List DispatchEvent → List (List ℕ) → Run Link A → A → Type 0
Fetches log queue run value =
    (d : ClientInterface) × (g' : ℕ) × (left : List Exchange) × (run
      ≡ finished value (idle (link d (plan left) log) g'))
    × (d.state ≡ theoretically_done_sending)
    × (d.send_queue ≡ queue)
