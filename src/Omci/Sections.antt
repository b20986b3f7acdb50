-- ===== src/Omci/Sections.antt =====
-- The number of sections of a software image (internal/common/omci/image.go).
use g_simulator.Prelude.{
  ℕ, ◌+◌, ◌*◌, ◌/◌, ◌%◌, ◌≤◌, ◌<◌, Bool, true, false, ltb, u32, if◌then◌else◌, arith,
}
use g_simulator.Go.{Result, ok, deref, ◌>>=◌}
use g_simulator.Omci.Packet.{
  Body, StartSoftwareDownloadRequest, parse_start_software_download_request,
}

abbrev pub section_size : Bool → ℕ
section_size true = 1965
section_size false = 31

-- The number of sections from the request; the sizes are unsigned 32-bit integers.
unfoldable pub sections_count : StartSoftwareDownloadRequest → ℕ
sections_count r =
    let size = section_size r.extended in
    if ltb 0 (r.image_size % size) then u32 (r.image_size / size + 1) else r.image_size / size

-- ComputeDownloadSectionsCount uses the request even if it did not parse.
unfoldable pub compute_download_sections_count : Body → Result ℕ
unfolding sections_count
compute_download_sections_count pkt = do
  r ← deref (parse_start_software_download_request pkt)
  ok (sections_count r)

-- The number of sections computed for an image is the least that holds the image: so many sections of
-- full size are enough, and one less is too few, for every image size of 32 bits.
pub sections_count-is_least :
    (r : StartSoftwareDownloadRequest)
    → r.image_size < 4294967296
    → (r.image_size ≤ sections_count r * section_size r.extended)
      × (sections_count r * section_size r.extended < r.image_size + section_size r.extended)
unfolding sections_count
sections_count-is_least r h = ground arith

pub sections_count-bounded :
    (r : StartSoftwareDownloadRequest) → r.image_size < 4294967296 → sections_count r < 4294967296
unfolding sections_count
sections_count-bounded r h = ground arith
