-- ===== src/Tests/Tools.antt =====
-- The theorems on the helper programs at concrete inputs.
use pg_cmd_queue.Base.{true, false, List, [], ◌∷◌, Bytes, codes}
use pg_cmd_queue.Nix.Poll.{exited}
use pg_cmd_queue.Tools.WithCmdqd.{World}

-- The daemon is ready, and `psql` cannot be forked.
abbrev without_psql : World
without_psql = record {
  cmdqd_bin_is_set = true;
  before_fork = [];
  cmdqd_forked = true;
  before_test = 17 ∷ 10 ∷ [];
  psql_forked = false;
  during_psql = [];
  psql_end = exited 3;
  cmdqd_end = exited 0;
}

abbrev arguments : List Bytes
arguments = codes "psql" ∷ codes "-d" ∷ codes "test" ∷ []
