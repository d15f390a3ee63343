-- ===== src/Guest/Client/Handles.antt =====
-- The methods of the 9p client over the handles that are open.
use homura.Bytes.{Bytes}
use homura.Guest.Client.Ops.{close_fid, close_all, walk_file, open_path, create_file}
use homura.Guest.Client.Owned.Calls.{Method, apply}
use homura.Guest.Client.{OpenFlags, Remote, Client, Result, ok, err}
use homura.Prelude.{ℕ, List, [], ◌∷◌}

-- What a user of the client calls: a method that opens no file for its caller, or one of those that
-- give, keep or close files.
pub data Op : Type 0 where
  by_method : Method → Op
  by_walk : Bytes → Op
  by_open : Bytes → OpenFlags → Op
  by_create : Bytes → ℕ → ℕ → Op
  by_close_fid : ℕ → Op
  by_close : Op

module _ (remote : Remote) where
  pub step : Op → Client → Client
  step (by_method m) c = apply remote m c
  step (by_walk path) c = (walk_file remote path c).1
  step (by_open path flags) c = (open_path remote path flags c).1
  step (by_create path mode flags) c = (create_file remote path mode flags c).1
  step (by_close_fid fid) c = close_fid fid c
  step by_close c = close_all c.files c

  -- What is handed out after a call: a walk that succeeds gives its file to the caller.
  abbrev pub and_given : Result ℕ → List ℕ → List ℕ
  and_given (ok h) out = h ∷ out
  and_given (err e) out = out

  pub given : Op → Client → List ℕ → List ℕ
  given (by_walk path) c out = and_given (walk_file remote path c).0 out
  given _ c out = out

  pub steps : List Op → Client → Client
  unfolding step
  steps [] c = c
  steps (op ∷ ops) c = steps ops (step op c)

  -- The files that the calls hand out, the latest first.
  pub all_given : List Op → Client → List ℕ → List ℕ
  unfolding step given
  all_given [] c out = out
  all_given (op ∷ ops) c out = all_given ops (step op c) (given op c out)
