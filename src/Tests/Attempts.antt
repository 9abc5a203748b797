-- ===== src/Tests/Attempts.antt =====
-- An attempt to download a task with the grab client, at a concrete origin.
use downloadmgr.Prelude.{◌+ℤ◌, ◌≡◌, refl, arith, some, none, Text, []}
use downloadmgr.ArrayList.{list_array}
use downloadmgr.Task.{success}
use downloadmgr.Manager.Download.{Attempt, start_download}
use downloadmgr.Manager.Download.Composed.{client_of, do_attempt, HasStored, start_download_stores}
use downloadmgr.Grab.Errors.{GrabError}
use downloadmgr.Grab.Response.{Request, Response, new_request}
use downloadmgr.Grab.Client.Machine.{returned, download}
use downloadmgr.Tests.Fixtures.{working_mgr, attempt_with}
use downloadmgr.Tests.Grabs.{plus_one, join, world, world-IsUsual, request}

abbrev text : GrabError → Text
text e = []

abbrev attempt : Attempt
attempt =
    do_attempt text plus_one join world 0 (working_mgr.tasks 0) (some request.http_request)
      (attempt_with none)

succeeds : ((start_download working_mgr 0 attempt).tasks 0).status ≡ success
unfolding start_download do_attempt download new_request ◌+ℤ◌
succeeds = refl

start_download_stores_example :
    (req : Request) × (new_request (working_mgr.tasks 0).save_path (some request.http_request)
      ≡ some req)
    × ((r : Response) × (download plus_one join (client_of (working_mgr.tasks 0)) world 0 req
          ≡ returned r)
        × HasStored plus_one world (working_mgr.tasks 0) r)
start_download_stores_example =
    start_download_stores text plus_one join world world-IsUsual 0 working_mgr 0 (attempt_with none)
      (some request.http_request) (λ h e. ground arith) ((omega arith, λ e. refl), tt) (λ e. cc)
      succeeds
