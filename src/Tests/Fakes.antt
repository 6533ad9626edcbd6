-- ===== src/Tests/Fakes.antt =====
-- Runs and instances for the library in memory.
use ummwith_client.Prelude.{◌≡◌, refl, List, [], ◌∷◌, ok, err, runtime_error}
use ummwith_client.Prelude.Dict.{dict_get, dict_set, dict_del}
use ummwith_client.Umm.{ChunkDescriptor}
use ummwith_client.Umm.Clib.{checked, clib_write_from, clib_read_into}
use ummwith_client.Fake.{
  fake_lib, new_fake, fake_alloc, fake_alloc_on_device, fake_free, fake_read, fake_write, io_done,
}
use ummwith_client.Fake.Memory.{
  Request, alloc_on_device, free, read, read_into, write_from, chunk, bytes, count, nothing,
  perform_all, serve_all,
}
use ummwith_client.Fake.Calls.{empty, new_fake_lem}

abbrev first_chunk : ChunkDescriptor
first_chunk = record { chunk_id = 1; base_gpa = 1114112; user_size = 4 }

-- A write, two reads, a read past the end, a free and a read of what is gone.
abbrev calls : List Request
calls =
    alloc_on_device 4 1
    ∷ write_from first_chunk 1 (7 ∷ 8 ∷ [])
    ∷ read_into first_chunk 0 4
    ∷ read first_chunk 3 2
    ∷ alloc_on_device 4 2
    ∷ free first_chunk
    ∷ read first_chunk 0 1
    ∷ []

calls_replies :
    (serve_all fake_lib calls (new_fake 2)).0
    ≡ chunk (ok first_chunk)
      ∷ count (ok 2)
      ∷ bytes (ok (0 ∷ 7 ∷ 8 ∷ 0 ∷ []))
      ∷ bytes (err runtime_error)
      ∷ chunk (err runtime_error)
      ∷ nothing (ok tt)
      ∷ bytes (err runtime_error)
      ∷ []
unfolding serve_all new_fake fake_alloc fake_alloc_on_device fake_free fake_read fake_write io_done
    checked clib_write_from clib_read_into dict_get dict_set dict_del
calls_replies = refl

new_fake_lem_example : (serve_all fake_lib calls (new_fake 2)).0 ≡ (perform_all calls (empty 2)).0
new_fake_lem_example = new_fake_lem 2 calls
