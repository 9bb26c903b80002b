-- ===== src/Tests/Wrappers.antt =====
-- A read of the line at 0x20 while the wrapper is free.
use tartaruga.Base.{arith, ◌+◌, ◌/◌, ◌%◌, if◌then◌else◌, ℕ, true, false, ◌<◌, ◌≡◌, ◌==◌, refl}
use tartaruga.Wrapper.{Request, System, req_ready, none_valid, response}
use tartaruga.Wrapper.Latency.{after}
use tartaruga.Wrapper.Lines.{request_latency}

abbrev free : System
free = record {
  wrapper = record {
    req = λ i. record { valid = false; addr = 0; we = false; words = λ k. 0 };
    rsp = λ i. record { valid = false; addr = 0; words = λ k. 0 };
  };
  memory = record { cells = λ i. i; initialized = true };
}

abbrev requests : ℕ → Request
requests i = record { valid = i == 0; addr = 0x20; we = false; words = λ k. 0 }

free-ready : req_ready free.wrapper ≡ true
unfolding req_ready none_valid
free-ready = refl

request_latency_example :
    let q = requests 0 in
    let out = response (after free requests 10).wrapper in
    (out.valid ≡ true)
    × (out.addr ≡ q.addr)
    × (q.we ≡ false → (k : ℕ) → k < 4 → out.words k ≡ 8 + k)
    × (q.we ≡ true
        → (j : ℕ)
        → (after free requests 6).memory.cells j ≡ (if j / 4 == 2 then q.words (j % 4) else j))
    × ((n : ℕ) → n < 10 → (response (after free requests n).wrapper).valid ≡ false)
request_latency_example = request_latency free requests free-ready refl refl refl (omega arith)
