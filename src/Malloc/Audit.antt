-- ===== src/Malloc/Audit.antt =====
-- our-course/labs/lab03-allocator/solutions/mymalloc.c: the heap checker's walk along the free
-- list, and what it reports.
use ia_operating_systems.Malloc.Valid.{Valid}
